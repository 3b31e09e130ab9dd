-- ===== src/Codex/Idle.antt =====
-- `waitIdle` of internal/codex/adapter.go: when a turn of Codex is over.
pub mod Counters
pub mod Settled
pub mod Returns
pub mod Deadline
use ateam.Prelude.{
  ℕ, zero, suc, ◌+◌, Bool, true, false, not, ◌&&◌, ◌||◌, Option, none, some, List, [], ◌∷◌, ◌++◌,
  Bytes, eq, leb, ltb, is_some, if◌then◌else◌,
}
use ateam.Codex.Pane.{codex_busy, prompt_ready, heartbeat_preview}

-- Points in time, in nanoseconds.
abbrev pub Time : Type 0
Time = ℕ

pub data IdleSignal : Type 0 where
  prompt_match quiescence timeout : IdleSignal

-- An error by its message: the context's, that of a capture or of the pause, or the deadline's.
pub data IdleError : Type 0 where
  cancelled : Bytes → IdleError
  no_capture : Bytes → IdleError
  not_idle_within : ℕ → IdleError

pub data Capture : Type 0 where
  shows : Bytes → Capture
  lost : Bytes → Capture

-- What a round of the loop meets: the context's error, the capture, the readings of the clock in
-- their order, and the context's error in the pause.
pub record Poll : Type 0 where
  pub ctx_err : Option Bytes
  pub capture : Capture
  pub at_change : Time
  pub at_beat : Time
  pub behind_beat : Time
  pub at_quiet : Time
  pub at_deadline : Time
  pub pause_err : Option Bytes

pub record Watch : Type 0 where
  pub to_lower : Bytes → Bytes
  -- `stableHash`, SHA-256 in hex
  pub hash : Bytes → Bytes
  pub deadline : Time
  pub timeout : ℕ
  pub quiescence : ℕ
  pub has_heartbeat : Bool
  pub heartbeat_interval : ℕ
  pub initial_hash : Bytes

-- The variables of the loop.
pub record Idle : Type 0 where
  pub last_hash : Bytes
  pub last_changed : Time
  pub prompt_was_ready : Bool
  pub consecutive_ready : ℕ
  pub consecutive_quiet : ℕ
  pub last_heartbeat : Time

-- The calls that the loop makes: of the heartbeat, and of the interrupt.
pub data Call : Type 0 where
  heartbeat : Bytes → Call
  interrupt : Call

abbrev pub idle_matches : ℕ
idle_matches = 2

-- The start of the loop.
abbrev pub started : Watch → Time → Time → Idle
started w now later = record {
  last_hash = w.initial_hash;
  last_changed = now;
  prompt_was_ready = true;
  consecutive_ready = 0;
  consecutive_quiet = 0;
  last_heartbeat = later;
}

-- The heartbeat is due.
abbrev pub beats : Watch → Poll → Idle → Bool
beats w p s = w.has_heartbeat && leb (s.last_heartbeat + w.heartbeat_interval) p.at_beat

-- A change of the pane.
unfoldable pub note_change : Watch → Poll → Bytes → Idle → Idle × List Call
note_change w p rendered s =
    if eq (w.hash rendered) s.last_hash
    then (s, [])
    else if beats w p s
    then (
      record s {
        last_hash = w.hash rendered;
        last_changed = p.at_change;
        last_heartbeat = p.behind_beat;
      },
      heartbeat (heartbeat_preview rendered) ∷ [],
    )
    else (record s { last_hash = w.hash rendered; last_changed = p.at_change }, [])

-- The counting of idle prompts, for a busy and a ready pane.
unfoldable pub note_prompt : Bool → Bool → Idle → Idle
note_prompt true ready s = record s {
  prompt_was_ready = false;
  consecutive_ready = 0;
  consecutive_quiet = 0;
}
note_prompt false true s =
    if s.prompt_was_ready then s else record s { consecutive_ready = s.consecutive_ready + 1 }
note_prompt false false s = record s { prompt_was_ready = false; consecutive_ready = 0 }

-- The return behind it.
abbrev pub is_prompt_match : Bool → Bool → Idle → Idle → Bool
is_prompt_match busy ready before after =
    not busy && ready && not before.prompt_was_ready && leb idle_matches after.consecutive_ready

abbrev pub is_quiescent : Watch → Poll → Bool → Bytes → Idle → Bool
is_quiescent w p busy rendered s =
    not busy
    && not (eq (w.hash rendered) w.initial_hash)
    && leb (s.last_changed + w.quiescence) p.at_quiet

unfoldable pub note_quiet : Bool → Idle → Idle
note_quiet true s = record s { consecutive_quiet = s.consecutive_quiet + 1 }
note_quiet false s = record s { consecutive_quiet = 0 }

-- What `waitIdle` returns.
abbrev pub Answer : Type 0
Answer = IdleSignal × Option IdleError

-- A round ends with an answer or goes on.
pub data Round : Type 0 where
  answers : Answer → List Call → Round
  goes_on : Idle → List Call → Round

-- The end of a round, behind the quiescence.
abbrev pub pause : Watch → Poll → Idle → List Call → Round
pause w p s calls =
    if ltb w.deadline p.at_deadline
    then answers (timeout, some (not_idle_within w.timeout)) (calls ++ interrupt ∷ [])
    else elim p.pause_err [
      | some e ↦ answers (timeout, some (cancelled e)) calls
      | none ↦ goes_on s calls
    ]

abbrev pub watch_quiet : Watch → Poll → Bool → Bytes → Idle → List Call → Round
watch_quiet w p busy rendered s calls =
    let quiescent = is_quiescent w p busy rendered s in
    let t = note_quiet quiescent s in
    if quiescent && leb idle_matches t.consecutive_quiet
    then answers (quiescence, none) calls
    else pause w p t calls

abbrev pub watch_prompt : Watch → Poll → Bool → Bool → Bytes → Idle → List Call → Round
watch_prompt w p busy ready rendered s calls =
    let t = note_prompt busy ready s in
    if is_prompt_match busy ready s t
    then answers (prompt_match, none) calls
    else watch_quiet w p busy rendered t calls

abbrev pub look : Watch → Poll → Bytes → Idle → Round
look w p rendered s =
    let (t, calls) = note_change w p rendered s in
    watch_prompt w p (codex_busy w.to_lower rendered) (prompt_ready rendered) rendered t calls

abbrev pub captured : Watch → Poll → Idle → Capture → Round
captured w p s (lost e) = answers (timeout, some (no_capture e)) []
captured w p s (shows rendered) = look w p rendered s

unfoldable pub round : Watch → Poll → Idle → Round
unfolding note_change note_prompt note_quiet codex_busy prompt_ready heartbeat_preview
round w p s = elim p.ctx_err [
  | some e ↦ answers (timeout, some (cancelled e)) []
  | none ↦ captured w p s p.capture
]

-- What the loop returns, with all calls up to then; none if the polls end before.
abbrev pub Reply : Type 0
Reply = Option (Answer × List Call)

abbrev pub behind_calls : List Call → Reply → Reply
behind_calls calls none = none
behind_calls calls (some (a, later)) = some (a, calls ++ later)

abbrev pub after_round : Round → (Idle → Reply) → Reply
after_round (answers a calls) further = some (a, calls)
after_round (goes_on t calls) further = behind_calls calls (further t)

-- The loop on the polls to come.
unfoldable pub wait_idle : Watch → List Poll → Idle → Reply
unfolding round
wait_idle w [] s = none
wait_idle w (p ∷ ps) s = after_round (round w p s) (wait_idle w ps)
