-- ===== src/Codex/Ready.antt =====
-- `waitReady` and `waitInputEcho` of internal/codex/adapter.go: the loops before a turn begins, on what
-- their rounds meet.
use ateam.Prelude.{ℕ, Bool, Option, none, some, List, [], ◌∷◌, ◌++◌, Bytes, ltb, if◌then◌else◌}
use ateam.Codex.Pane.{prompt_ready, echo_visible}
use ateam.Codex.Idle.{Time, Capture, shows, lost}
use ateam.Codex.Delivery.{Sending, dismissal, tmux_command_exited}

-- The context's error, the capture, what each key that is sent fails with, the clock, and the
-- context's error in the pause.
pub record StartPoll : Type 0 where
  pub ctx_err : Option Bytes
  pub capture : Capture
  pub send_errs : List (Option Bytes)
  pub at_deadline : Time
  pub pause_err : Option Bytes

pub data ReadyError : Type 0 where
  stopped : Bytes → ReadyError
  exited : ReadyError
  not_ready_within : ℕ → ReadyError
  no_marker : ReadyError
  no_echo_within : Bytes → ℕ → ReadyError

-- What a round ends with: the text that is returned and an error if there is one, or nothing.
abbrev pub Started : Type 0
Started = Option (Bytes × Option ReadyError)

abbrev pub failing : Bytes → ReadyError → Started
failing rendered e = some (rendered, some e)

abbrev pub paused : Bytes → Option Bytes → Started
paused rendered none = none
paused rendered (some e) = failing rendered (stopped e)

-- The keys that are sent until one fails, and this error. A key without a given outcome is sent.
abbrev pub send : List Sending → List (Option Bytes) → List Sending × Option Bytes
send [] errs = ([], none)
send (k ∷ ks) [] = (k ∷ ks, none)
send (k ∷ ks) (some e ∷ errs) = (k ∷ [], some e)
send (k ∷ ks) (none ∷ errs) = let (sent, e) = send ks errs in (k ∷ sent, e)

abbrev pub behind_dialog : StartPoll → Bytes → List Sending × Option Bytes → List Sending × Started
behind_dialog p rendered (sent, some e) = (sent, failing rendered (stopped e))
behind_dialog p rendered (sent, none) = (sent, paused rendered p.pause_err)

-- A pane that is not ready: with a dialog the deadline is not looked at.
abbrev pub dismiss : ℕ → Time → StartPoll → Bytes → List Sending → List Sending × Started
dismiss timeout deadline p rendered [] = (
  [],
  if ltb deadline p.at_deadline
      then failing rendered (not_ready_within timeout)
      else paused rendered p.pause_err,
)
dismiss timeout deadline p rendered (k ∷ ks) = behind_dialog p rendered (send (k ∷ ks) p.send_errs)

abbrev pub ready_capture : ℕ → Time → StartPoll → Capture → List Sending × Started
ready_capture timeout deadline p (lost e) = ([], failing [] (stopped e))
ready_capture timeout deadline p (shows rendered) =
    if prompt_ready rendered
    then ([], some (rendered, none))
    else if tmux_command_exited rendered
    then ([], failing rendered exited)
    else dismiss timeout deadline p rendered (dismissal rendered)

abbrev pub ready_start : ℕ → Time → StartPoll → Option Bytes → List Sending × Started
ready_start timeout deadline p (some e) = ([], failing [] (stopped e))
ready_start timeout deadline p none = ready_capture timeout deadline p p.capture

abbrev pub ready_behind : List Sending × Started → List Sending × Started → List Sending × Started
ready_behind (sent, some r) later = (sent, some r)
ready_behind (sent, none) later = (sent ++ later.0, later.1)

-- `waitReady`: the keys that it sent, and what it returned, if it did before the polls end.
unfoldable pub wait_ready : ℕ → Time → List StartPoll → List Sending × Started
unfolding prompt_ready tmux_command_exited dismissal
wait_ready timeout deadline [] = ([], none)
wait_ready timeout deadline (p ∷ ps) =
    ready_behind (ready_start timeout deadline p p.ctx_err) (wait_ready timeout deadline ps)

-- The rounds of `waitInputEcho`: none if the marker shows.
abbrev pub Echoed : Type 0
Echoed = Option (Option ReadyError)

abbrev pub echo_pause : Option Bytes → Echoed
echo_pause none = none
echo_pause (some e) = some (some (stopped e))

abbrev pub echo_capture : Bytes → Bool → ℕ → Time → StartPoll → Capture → Echoed
echo_capture marker is_slash_command timeout deadline p (lost e) = some (some (stopped e))
echo_capture marker is_slash_command timeout deadline p (shows rendered) =
    if echo_visible rendered marker is_slash_command
    then some none
    else if ltb deadline p.at_deadline
    then some (some (no_echo_within marker timeout))
    else echo_pause p.pause_err

abbrev pub echo_start : Bytes → Bool → ℕ → Time → StartPoll → Option Bytes → Echoed
echo_start marker is_slash_command timeout deadline p (some e) = some (some (stopped e))
echo_start marker is_slash_command timeout deadline p none =
    echo_capture marker is_slash_command timeout deadline p p.capture

abbrev pub first_echoed : Echoed → Echoed → Echoed
first_echoed (some r) later = some r
first_echoed none later = later

unfoldable pub wait_echo : Bytes → Bool → ℕ → Time → List StartPoll → Echoed
unfolding echo_visible
wait_echo marker is_slash_command timeout deadline [] = none
wait_echo marker is_slash_command timeout deadline (p ∷ ps) =
    first_echoed (echo_start marker is_slash_command timeout deadline p p.ctx_err)
      (wait_echo marker is_slash_command timeout deadline ps)

-- `waitInputEcho`
unfoldable pub wait_input_echo : Bytes → Bool → ℕ → Time → List StartPoll → Echoed
unfolding wait_echo
wait_input_echo [] is_slash_command timeout deadline ps = some (some no_marker)
wait_input_echo (m ∷ marker) is_slash_command timeout deadline ps =
    wait_echo (m ∷ marker) is_slash_command timeout deadline ps
