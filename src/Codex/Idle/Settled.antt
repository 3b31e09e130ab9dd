-- ===== src/Codex/Idle/Settled.antt =====
-- A round of `waitIdle`: what an answer rests on, and what the counters stand for if it goes on.
use ateam.Prelude.{
  Bool, true, false, not, ◌&&◌, ◌||◌, Option, none, some, List, [], ◌∷◌, ◌≡◌, refl, arith, Bytes,
  eq, leb, ltb, if◌then◌else◌,
}
use ateam.Codex.Pane.{heartbeat_preview}
use ateam.Codex.Idle.{
  Time, IdleSignal, prompt_match, quiescence, timeout, IdleError, Capture, shows, lost, Poll, Watch,
  Idle, Call, heartbeat, idle_matches, started, beats, note_change, note_prompt, is_prompt_match,
  is_quiescent, note_quiet, Answer, Round, answers, goes_on, pause, watch_quiet, watch_prompt, look,
  captured, round, behind_calls, wait_idle,
}
use ateam.Codex.Idle.Counters.{
  Tracks, Rests, note_prompt-Tracks, matched, quiet-answer, note_quiet-Tracks,
}

module _ (w : Watch) where
  abbrev pub is_quiet_view : Bool → Bytes → Bool
  is_quiet_view busy rendered = not busy && not (eq (w.hash rendered) w.initial_hash)

  abbrev pub Fine : Bool → Bool → Bool → Bool → Bool → Bool → Round → Type 0
  Fine settled worked quiet busy ready quiet_now (answers a calls) =
      Rests a.0 settled worked quiet (not busy && ready) quiet_now
  Fine settled worked quiet busy ready quiet_now (goes_on t calls) =
      Tracks (not busy && ready) (worked || (busy || not ready)) quiet_now t

  module _ (settled worked quiet busy ready quiet_now : Bool) where
    Fine-if :
        (b : Bool) (x y : Round)
        → (b ≡ true → Fine settled worked quiet busy ready quiet_now x)
        → (b ≡ false → Fine settled worked quiet busy ready quiet_now y)
        → Fine settled worked quiet busy ready quiet_now (if b then x else y)
    Fine-if true x y f g = f refl
    Fine-if false x y f g = g refl

    pause-Fine :
        (p : Poll) (t : Idle) (calls : List Call)
        → Tracks (not busy && ready) (worked || (busy || not ready)) quiet_now t
        → Fine settled worked quiet busy ready quiet_now (pause w p t calls)
    pause-Fine p t calls seen =
        Fine-if (ltb w.deadline p.at_deadline) _ _ (λ _. tt) (λ _. pausing p.pause_err)
      where
        pausing :
            (e : Option Bytes)
            → Fine settled worked quiet busy ready quiet_now (elim e [
              | some e ↦ answers (timeout, some (ateam.Codex.Idle.cancelled e)) calls
              | none ↦ goes_on t calls
            ])
        pausing (some e) = tt
        pausing none = seen

  quiescent-view :
      (p : Poll) (busy : Bool) (rendered : Bytes) (t : Idle)
      → is_quiescent w p busy rendered t ≡ true
      → is_quiet_view busy rendered ≡ true
  quiescent-view p busy rendered t h = ground (arith, h)

  watch_quiet-Fine :
      (settled worked quiet busy ready : Bool) (p : Poll) (rendered : Bytes) (t : Idle)
      (calls : List Call)
      → Tracks (not busy && ready) (worked || (busy || not ready)) quiet t
      → Fine settled worked quiet busy ready
          (is_quiet_view busy rendered)
          (watch_quiet w p busy rendered t calls)
  watch_quiet-Fine settled worked quiet busy ready p rendered t calls seen =
      let q = is_quiescent w p busy rendered t in
      Fine-if settled worked quiet busy ready (is_quiet_view busy rendered)
        (q && leb idle_matches (note_quiet q t).consecutive_quiet) _ _
        (λ h.
          let (seen, now) = quiet-answer q quiet t seen.quiet_seen h in
          (seen, quiescent-view p busy rendered t now))
        (λ h.
          pause-Fine settled worked quiet busy ready (is_quiet_view busy rendered) p
            (note_quiet q t) calls
            (note_quiet-Tracks (not busy && ready) (worked || (busy || not ready)) quiet q
              (is_quiet_view busy rendered) t seen h (quiescent-view p busy rendered t)))

  pub watch_prompt-Fine :
      (settled worked quiet busy ready : Bool) (p : Poll) (rendered : Bytes) (s : Idle)
      (calls : List Call)
      → Tracks settled worked quiet s
      → Fine settled worked quiet busy ready
          (is_quiet_view busy rendered)
          (watch_prompt w p busy ready rendered s calls)
  watch_prompt-Fine settled worked quiet busy ready p rendered s calls seen =
      Fine-if settled worked quiet busy ready (is_quiet_view busy rendered)
        (is_prompt_match busy ready s (note_prompt busy ready s)) _ _
        (λ m. matched settled worked quiet busy ready (is_quiet_view busy rendered) s seen m)
        (λ m.
          watch_quiet-Fine settled worked quiet busy ready p rendered (note_prompt busy ready s)
            calls (note_prompt-Tracks settled worked quiet busy ready s seen m))

  abbrev pub Kept : Bool → Bool → Bool → Idle × List Call → Type 0
  Kept settled worked quiet r = Tracks settled worked quiet r.0

  pub note_change-Tracks :
      (settled worked quiet : Bool) (p : Poll) (rendered : Bytes) (s : Idle)
      → Tracks settled worked quiet s
      → Kept settled worked quiet (note_change w p rendered s)
  unfolding note_change
  note_change-Tracks settled worked quiet p rendered s seen =
      changed (eq (w.hash rendered) s.last_hash) (beats w p s)
    where
      changed :
          (same due : Bool)
          → Kept settled worked quiet (
              if same
              then (s, [])
              else if due
              then (
                record s {
                  last_hash = w.hash rendered;
                  last_changed = p.at_change;
                  last_heartbeat = p.behind_beat;
                },
                heartbeat (heartbeat_preview rendered) ∷ [],
              )
              else (record s { last_hash = w.hash rendered; last_changed = p.at_change }, []))
      changed true due = seen
      changed false true = record {
        ready_seen = seen.ready_seen;
        work_seen = seen.work_seen;
        few_ready = seen.few_ready;
        quiet_seen = seen.quiet_seen;
        few_quiet = seen.few_quiet;
      }
      changed false false = record {
        ready_seen = seen.ready_seen;
        work_seen = seen.work_seen;
        few_ready = seen.few_ready;
        quiet_seen = seen.quiet_seen;
        few_quiet = seen.few_quiet;
      }
