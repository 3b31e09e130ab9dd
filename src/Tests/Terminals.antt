-- ===== src/Tests/Terminals.antt =====
-- internal/codex on a turn of three panes: one with work, and two with an idle prompt.
use ateam.Prelude.{
  ℕ, Bool, true, false, Option, none, List, [], ◌∷◌, ◌++◌, ◌≡◌, refl, Bytes, codes, any, ltb,
  is_some,
}
use ateam.Codex.Pane.{prompt_mark}
use ateam.Codex.Idle.{shows, Poll, Watch, Call, started, wait_idle}
use ateam.Codex.Idle.Deadline.{wait_idle-returns}

abbrev banner : Bytes
banner = codes "OpenAI Codex\n"

abbrev working_pane : Bytes
working_pane = banner ++ codes "esc to interrupt\n"

abbrev idle_pane : Bytes
idle_pane = banner ++ (codes "done\n" ++ (prompt_mark ++ codes " ask\n"))

abbrev poll : Bytes → ℕ → Poll
poll text now = record {
  ctx_err = none;
  capture = shows text;
  at_change = now;
  at_beat = now;
  behind_beat = now;
  at_quiet = now;
  at_deadline = now;
  pause_err = none;
}

abbrev watch : Watch
watch = record {
  to_lower = λ s. s;
  hash = λ s. s;
  deadline = 90;
  timeout = 90;
  quiescence = 20;
  has_heartbeat = false;
  heartbeat_interval = 8;
  initial_hash = codes "start";
}

abbrev turn : List Poll
turn = poll working_pane 5 ∷ (poll idle_pane 10 ∷ (poll idle_pane 15 ∷ (poll working_pane 95 ∷ [])))

abbrev no_calls : List Call
no_calls = []

turn-late : any (λ p. ltb watch.deadline p.at_deadline) turn ≡ true
turn-late = refl

wait_idle-returns_example : is_some (wait_idle watch turn (started watch 0 0)) ≡ true
wait_idle-returns_example = wait_idle-returns watch turn (started watch 0 0) turn-late
