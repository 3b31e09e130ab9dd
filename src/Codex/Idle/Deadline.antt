-- ===== src/Codex/Idle/Deadline.antt =====
-- `waitIdle` does not go on behind its deadline.
use ateam.Prelude.{
  Bool, true, false, ◌&&◌, Option, none, some, List, [], ◌∷◌, ◌≡◌, refl, ◌∙◌, arith, Bytes, leb,
  ltb, any, is_some, if◌then◌else◌,
}
use ateam.Codex.Pane.{codex_busy, prompt_ready}
use ateam.Codex.Idle.{
  prompt_match, quiescence, timeout, Capture, shows, lost, Poll, Watch, Idle, Call, note_change,
  note_prompt, note_quiet, is_prompt_match, is_quiescent, idle_matches, Round, answers, goes_on,
  pause, watch_quiet, watch_prompt, captured, round, Reply, behind_calls, after_round, wait_idle,
  cancelled,
}

module _ (w : Watch) where
  -- A round that goes on ends before the deadline.
  abbrev InTime : Poll → Round → Type 0
  InTime p (answers a calls) = Unit
  InTime p (goes_on t calls) = ltb w.deadline p.at_deadline ≡ false

  InTime-if :
      (p : Poll) (b : Bool) (x y : Round)
      → (b ≡ true → InTime p x)
      → (b ≡ false → InTime p y)
      → InTime p (if b then x else y)
  InTime-if p true x y f g = f refl
  InTime-if p false x y f g = g refl

  pause-InTime : (p : Poll) (t : Idle) (calls : List Call) → InTime p (pause w p t calls)
  pause-InTime p t calls =
      InTime-if p (ltb w.deadline p.at_deadline) _ _ (λ _. tt) (λ early. pausing early p.pause_err)
    where
      pausing :
          ltb w.deadline p.at_deadline ≡ false
          → (e : Option Bytes)
          → InTime p (elim e [
            | some e ↦ answers (timeout, some (cancelled e)) calls
            | none ↦ goes_on t calls
          ])
      pausing early (some e) = tt
      pausing early none = early

  watch_quiet-InTime :
      (p : Poll) (busy : Bool) (rendered : Bytes) (s : Idle) (calls : List Call)
      → InTime p (watch_quiet w p busy rendered s calls)
  watch_quiet-InTime p busy rendered s calls =
      let q = is_quiescent w p busy rendered s in
      InTime-if p (q && leb idle_matches (note_quiet q s).consecutive_quiet)
        (answers (quiescence, none) calls) (pause w p (note_quiet q s) calls) (λ _. tt)
        (λ _. pause-InTime p (note_quiet q s) calls)

  watch_prompt-InTime :
      (p : Poll) (busy ready : Bool) (rendered : Bytes) (s : Idle) (calls : List Call)
      → InTime p (watch_prompt w p busy ready rendered s calls)
  watch_prompt-InTime p busy ready rendered s calls =
      let t = note_prompt busy ready s in
      InTime-if p (is_prompt_match busy ready s t) (answers (prompt_match, none) calls)
        (watch_quiet w p busy rendered t calls) (λ _. tt)
        (λ _. watch_quiet-InTime p busy rendered t calls)

  captured-InTime : (p : Poll) (s : Idle) (c : Capture) → InTime p (captured w p s c)
  captured-InTime p s (lost e) = tt
  captured-InTime p s (shows rendered) =
      watch_prompt-InTime p (codex_busy w.to_lower rendered) (prompt_ready rendered) rendered
        (note_change w p rendered s).0 (note_change w p rendered s).1

  round-InTime : (p : Poll) (s : Idle) → InTime p (round w p s)
  unfolding round
  round-InTime p s = starting p.ctx_err
    where
      starting :
          (e : Option Bytes)
          → InTime p (elim e [
            | some e ↦ answers (timeout, some (cancelled e)) []
            | none ↦ captured w p s p.capture
          ])
      starting (some e) = tt
      starting none = captured-InTime p s p.capture

  after_round-returns :
      (p : Poll) (ps : List Poll) (x : Round)
      → InTime p x
      → any (λ q. ltb w.deadline q.at_deadline) (p ∷ ps) ≡ true
      → ((t : Idle)
          → any (λ q. ltb w.deadline q.at_deadline) ps ≡ true
          → is_some (wait_idle w ps t) ≡ true)
      → is_some (after_round x (wait_idle w ps)) ≡ true
  after_round-returns p ps (answers a calls) early h further = refl
  after_round-returns p ps (goes_on t calls) early h further =
      is_some-behind calls (wait_idle w ps t) ∙ further t (ground (arith, early, h))
    where
      is_some-behind : (calls : List Call) (r : Reply) → is_some (behind_calls calls r) ≡ is_some r
      is_some-behind calls none = refl
      is_some-behind calls (some a) = refl

  -- `waitIdle` returns at the latest with the first pane whose round ends behind the deadline,
  -- whatever the panes show.
  pub wait_idle-returns :
      (polls : List Poll) (s : Idle)
      → any (λ p. ltb w.deadline p.at_deadline) polls ≡ true
      → is_some (wait_idle w polls s) ≡ true
  unfolding wait_idle
  wait_idle-returns [] s h = cc
  wait_idle-returns (p ∷ ps) s h =
      after_round-returns p ps (round w p s) (round-InTime p s) h
        (λ t rest. wait_idle-returns ps t rest)
