-- ===== src/Codex/Idle/Counters.antt =====
-- The counters of `waitIdle` against the panes that it saw.
use ateam.Prelude.{
  ◌+◌, ◌≤◌, Bool, true, false, not, ◌&&◌, ◌||◌, ◌≡◌, ◌⊎◌, inl, inr, refl, arith, leb, if◌then◌else◌,
}
use ateam.Codex.Idle.{
  IdleSignal, prompt_match, quiescence, timeout, Idle, idle_matches, note_prompt, is_prompt_match,
  note_quiet,
}

-- The counters against what was seen: an idle prompt in the last pane, work in some pane, quiet in
-- the last pane.
pub record Tracks (settled worked quiet : Bool) (s : Idle) : Type 0 where
  pub ready_seen : (s.consecutive_ready ≡ 0) ⊎ (settled ≡ true)
  pub work_seen : (s.prompt_was_ready ≡ true) ⊎ (worked ≡ true)
  pub few_ready : s.consecutive_ready ≤ 1
  pub quiet_seen : (s.consecutive_quiet ≡ 0) ⊎ (quiet ≡ true)
  pub few_quiet : s.consecutive_quiet ≤ 1

-- What an answer is to rest on: the panes before, and the pane in hand.
abbrev pub Rests : IdleSignal → Bool → Bool → Bool → Bool → Bool → Type 0
Rests prompt_match settled worked quiet settled_now quiet_now =
    (settled ≡ true) × (settled_now ≡ true) × (worked ≡ true)
Rests quiescence settled worked quiet settled_now quiet_now = (quiet ≡ true) × (quiet_now ≡ true)
Rests timeout _ _ _ _ _ = Unit

counted : Bool → Idle → Idle
counted b s = if b then s else record s { consecutive_ready = s.consecutive_ready + 1 }

counted-few :
    (b : Bool) (s : Idle)
    → s.consecutive_ready ≤ 1
    → (not b && leb idle_matches (counted b s).consecutive_ready) ≡ false
    → (counted b s).consecutive_ready ≤ 1
unfolding counted
counted-few true s few m = few
counted-few false s few m = ground arith

counted-match :
    (b : Bool) (s : Idle)
    → (not b && leb idle_matches (counted b s).consecutive_ready) ≡ true
    → (b ≡ false) × (1 ≤ s.consecutive_ready)
unfolding counted
counted-match true s m = absurd (ground arith)
counted-match false s m = (refl, ground arith)

counted-work :
    (b worked : Bool) (s : Idle)
    → b ≡ s.prompt_was_ready
    → (s.prompt_was_ready ≡ true) ⊎ (worked ≡ true)
    → ((counted b s).prompt_was_ready ≡ true) ⊎ ((worked || false) ≡ true)
unfolding counted
counted-work true worked s e h = ground arith
counted-work false worked s e h = ground arith

note_prompt-few :
    (busy ready : Bool) (s : Idle)
    → s.consecutive_ready ≤ 1
    → is_prompt_match busy ready s (note_prompt busy ready s) ≡ false
    → (note_prompt busy ready s).consecutive_ready ≤ 1
unfolding note_prompt
note_prompt-few true ready s few m = omega arith
note_prompt-few false true s few m =
    unfold counted in counted-few s.prompt_was_ready s few (ground (arith, m))
note_prompt-few false false s few m = omega arith

note_prompt-ready :
    (busy ready : Bool) (s : Idle)
    → ((note_prompt busy ready s).consecutive_ready ≡ 0) ⊎ ((not busy && ready) ≡ true)
unfolding note_prompt
note_prompt-ready true ready s = inl refl
note_prompt-ready false true s = inr refl
note_prompt-ready false false s = inl refl

note_prompt-work :
    (busy ready worked : Bool) (s : Idle)
    → (s.prompt_was_ready ≡ true) ⊎ (worked ≡ true)
    → ((note_prompt busy ready s).prompt_was_ready ≡ true)
      ⊎ ((worked || (busy || not ready)) ≡ true)
unfolding note_prompt
note_prompt-work true ready worked s h = inr (ground arith)
note_prompt-work false true worked s h =
    unfold counted in counted-work s.prompt_was_ready worked s refl h
note_prompt-work false false worked s h = inr (ground arith)

note_prompt-quiet :
    (busy ready : Bool) (s : Idle)
    → s.consecutive_quiet ≤ 1
    → (note_prompt busy ready s).consecutive_quiet ≤ 1
unfolding note_prompt
note_prompt-quiet true ready s few = omega arith
note_prompt-quiet false true s few = ground arith
note_prompt-quiet false false s few = few

quiet_kept :
    (busy ready quiet : Bool) (s : Idle)
    → (s.consecutive_quiet ≡ 0) ⊎ (quiet ≡ true)
    → ((note_prompt busy ready s).consecutive_quiet ≡ 0) ⊎ (quiet ≡ true)
unfolding note_prompt
quiet_kept true ready quiet s h = inl refl
quiet_kept false true quiet s h = ground arith
quiet_kept false false quiet s h = h

pub matched :
    (settled worked quiet busy ready quiet_now : Bool) (s : Idle)
    → Tracks settled worked quiet s
    → is_prompt_match busy ready s (note_prompt busy ready s) ≡ true
    → Rests prompt_match settled worked quiet (not busy && ready) quiet_now
unfolding note_prompt counted
matched settled worked quiet true ready quiet_now s seen m = absurd (ground (arith, m))
matched settled worked quiet false false quiet_now s seen m = absurd (ground (arith, m))
matched settled worked quiet false true quiet_now s seen m =
    let (b, many) = counted-match s.prompt_was_ready s (ground (arith, m)) in
    (ground (arith, seen.ready_seen), refl, ground (arith, seen.work_seen))

pub note_prompt-Tracks :
    (settled worked quiet busy ready : Bool) (s : Idle)
    → Tracks settled worked quiet s
    → is_prompt_match busy ready s (note_prompt busy ready s) ≡ false
    → Tracks (not busy && ready) (worked || (busy || not ready)) quiet (note_prompt busy ready s)
note_prompt-Tracks settled worked quiet busy ready s seen m = record {
  ready_seen = note_prompt-ready busy ready s;
  work_seen = note_prompt-work busy ready worked s seen.work_seen;
  few_ready = note_prompt-few busy ready s seen.few_ready m;
  quiet_seen = quiet_kept busy ready quiet s seen.quiet_seen;
  few_quiet = note_prompt-quiet busy ready s seen.few_quiet;
}

pub quiet-answer :
    (q quiet : Bool) (t : Idle)
    → (t.consecutive_quiet ≡ 0) ⊎ (quiet ≡ true)
    → (q && leb idle_matches (note_quiet q t).consecutive_quiet) ≡ true
    → (quiet ≡ true) × (q ≡ true)
unfolding note_quiet
quiet-answer true quiet t seen h = (ground (arith, seen, h), refl)
quiet-answer false quiet t seen h = absurd (ground (arith, h))

pub note_quiet-Tracks :
    (settled worked quiet q now : Bool) (t : Idle)
    → Tracks settled worked quiet t
    → (q && leb idle_matches (note_quiet q t).consecutive_quiet) ≡ false
    → (q ≡ true → now ≡ true)
    → Tracks settled worked now (note_quiet q t)
unfolding note_quiet
note_quiet-Tracks settled worked quiet true now t seen h view = record {
  ready_seen = seen.ready_seen;
  work_seen = seen.work_seen;
  few_ready = seen.few_ready;
  quiet_seen = inr (view refl);
  few_quiet = ground (arith, h);
}
note_quiet-Tracks settled worked quiet false now t seen h view = record {
  ready_seen = seen.ready_seen;
  work_seen = seen.work_seen;
  few_ready = seen.few_ready;
  quiet_seen = inl refl;
  few_quiet = omega arith;
}
