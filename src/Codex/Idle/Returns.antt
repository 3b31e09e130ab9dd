-- ===== src/Codex/Idle/Returns.antt =====
-- When `waitIdle` returns, and what it has seen by then.
use ateam.Prelude.{Bool, false, not, ◌&&◌, ◌||◌, some, List, [], ◌∷◌, ◌++◌, ◌≡◌, Bytes, any}
use ateam.Codex.Pane.{codex_busy, prompt_ready}
use ateam.Codex.Idle.{
  IdleSignal, Capture, shows, lost, Poll, Watch, Idle, Call, Answer, Round, answers, goes_on, Reply,
}
use ateam.Codex.Idle.Counters.{Tracks, Rests}
use ateam.Codex.Idle.Settled.{is_quiet_view}

-- The last element passes a test.
abbrev pub last_is : (Poll → Bool) → List Poll → Bool
last_is f [] = false
last_is f (p ∷ []) = f p
last_is f (p ∷ (q ∷ ps)) = last_is f (q ∷ ps)

abbrev shown : (Bytes → Bool) → Capture → Bool
shown f (shows rendered) = f rendered
shown f (lost e) = false

module _ (w : Watch) where
  -- A pane with an idle prompt and no sign of work; one with a sign of work, or without a prompt;
  -- and one without a sign of work that is not what it was at the start.
  abbrev pub is_settled : Poll → Bool
  is_settled p = shown (λ r. not (codex_busy w.to_lower r) && prompt_ready r) p.capture

  abbrev pub is_working : Poll → Bool
  is_working p = shown (λ r. codex_busy w.to_lower r || not (prompt_ready r)) p.capture

  abbrev pub is_quiet : Poll → Bool
  is_quiet p = shown (λ r. is_quiet_view w (codex_busy w.to_lower r) r) p.capture

  abbrev FineAt : Bool → Bool → Bool → Capture → Round → Type 0
  FineAt settled worked quiet c (answers a calls) =
      Rests a.0 settled worked quiet
        (shown (λ r. not (codex_busy w.to_lower r) && prompt_ready r) c)
        (shown (λ r. is_quiet_view w (codex_busy w.to_lower r) r) c)
  FineAt settled worked quiet c (goes_on t calls) =
      Tracks (shown (λ r. not (codex_busy w.to_lower r) && prompt_ready r) c)
        (worked || shown (λ r. codex_busy w.to_lower r || not (prompt_ready r)) c)
        (shown (λ r. is_quiet_view w (codex_busy w.to_lower r) r) c) t

  -- The poll with which the loop returns, and what the answer rests on.
  abbrev pub Ends : List Poll → IdleSignal → Type 0
  Ends polls signal =
      (before : List Poll) × ((q : Poll) × ((rest : List Poll) × ((polls ≡ before ++ q ∷ rest)
            × Rests signal (last_is is_settled before) (any is_working before)
                (last_is is_quiet before) (is_settled q) (is_quiet q))))

  abbrev After : List Poll → Idle → Type 0
  After past s = Tracks (last_is is_settled past) (any is_working past) (last_is is_quiet past) s

  abbrev replied : Answer → List Call → Reply
  replied a calls = some (a, calls)
