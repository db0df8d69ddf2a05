-- ===== src/EventLoopThread/Start.antt =====
-- startLoop returns, with the loop, however the two threads take turns; and what the destructor meets.
use chaonet.Common.{
  ℕ, zero, suc, ◌≤◌, ◌<◌, ◌≡◌, refl, sym, ap, ◌∙◌, subst, ◌⊎◌, inl, inr, true, false, List, [], ◌∷◌,
  none, some, Option-cases, Bool-cases, length, arith, ok, err, null_pointer, dangling_pointer,
  if_true, if_false,
}
use chaonet.EventLoopThread.{State, new_state, Event, run, step, destroy, has_ended}
use chaonet.EventLoopThread.Holds.{
  holds, measure, next, is_wake, is_asleep, is_returned, has_notified, has_stored, step-holds,
  step-next, holds-returned, holds-asleep, holds-stored,
}

run-holds : (es : List Event) (s s' : State) → holds s ≡ true → run s es ≡ some s' → holds s' ≡ true
unfolding run
run-holds [] s s' h e = subst (λ o. elim o [ none ↦ holds s | some t ↦ holds t ] ≡ true) e h
run-holds (e ∷ es) s s' h runs = elim (Option-cases (step s e)) [
  | inl stuck ↦
      absurd (cc (sym (ap (λ o. elim o [ none ↦ none | some t ↦ run t es ]) stuck) ∙ runs))
  | inr (t, goes) ↦
      run-holds es t s' (step-holds s t e h goes).0
        (sym (ap (λ o. elim o [ none ↦ none | some t ↦ run t es ]) goes) ∙ runs)
]

-- A way on to the return.
pub record Returns (s : State) : Type 0 where
  pub more : List Event
  pub last : State
  pub runs : run s more ≡ some last
  pub at_end : is_returned last.starter ≡ true
  pub has_loop : last.has_loop ≡ true
  pub few : length more ≤ measure s

finishes-step :
    (n : ℕ) (s : State)
    → measure s ≤ n
    → holds s ≡ true
    → ((t : State) → measure t < n → holds t ≡ true → Returns t)
    → Returns s
unfolding run
finishes-step n s small h later = elim (Bool-cases (is_returned s.starter)) [
  | inl back ↦ record {
    more = [];
    last = s;
    runs = refl;
    at_end = back;
    has_loop = holds-returned s h back;
    few = omega arith;
  }
  | inr waits ↦
      let (t, goes, by_itself) = step-next s h waits in
      let (h', nearer) = step-holds s t (next s) h goes in
      let closer : measure t < measure s = elim nearer [
        | inl wakes_ ↦ absurd (cc (wakes_, by_itself))
        | inr c ↦ c
      ] in
      let r = later t (omega (arith, closer, small)) h' in
      record {
        more = next s ∷ r.more;
        last = r.last;
        runs = ap (λ o. elim o [ none ↦ none | some t' ↦ run t' r.more ]) goes ∙ r.runs;
        at_end = r.at_end;
        has_loop = r.has_loop;
        few = omega (arith, r.few, closer);
      }
]

finishes : (n : ℕ) (s : State) → measure s ≤ n → holds s ≡ true → Returns s
finishes zero s small h = finishes-step zero s small h (λ t less g. absurd (omega (arith, less)))
finishes (suc n) s small h =
    finishes-step (suc n) s small h (λ t less g. finishes n t (omega (arith, less)) g)

-- However the steps of startLoop and threadFunc are interleaved, with wake-ups that nobody asked for: a
-- thread that waits has not missed its notification; one that has returned has the loop; each step but
-- such a wake-up brings the return nearer; and from wherever the two are, they get there, in as many
-- steps as `measure` says at most.
pub run-Returns :
    (es : List Event) (s : State)
    → run new_state es ≡ some s
    → (is_asleep s.starter ≡ true → has_notified s.worker ≡ false)
      × (is_returned s.starter ≡ true → s.has_loop ≡ true)
      × ((e : Event) (s' : State)
          → step s e ≡ some s'
          → (is_wake e ≡ true) ⊎ (measure s' < measure s))
      × Returns s
run-Returns es s runs =
    let h = run-holds es new_state s refl runs in
    (
      holds-asleep s h,
      holds-returned s h,
      λ e s' goes. (step-holds s s' e h goes).1,
      finishes (measure s) s (omega arith) h,
    )

-- What quit() meets in the destructor: before threadFunc stored the loop a null pointer, after loop()
-- returned a loop that is gone, and the loop only in between.
pub destroy-run :
    (es : List Event) (s : State)
    → run new_state es ≡ some s
    → ((has_stored s.worker ≡ false) × (destroy s ≡ err null_pointer))
      ⊎ (((has_ended s.worker ≡ true) × (destroy s ≡ err dangling_pointer))
          ⊎ ((has_stored s.worker ≡ true)
              × (has_ended s.worker ≡ false)
              × (destroy s ≡ ok (record s { exiting = true }))))
unfolding destroy
destroy-run es s runs =
    let e = holds-stored s (run-holds es new_state s refl runs) in
    elim (Bool-cases s.has_loop) [
      | inr empty ↦ inl (sym e ∙ empty, if_false s.has_loop _ _ empty)
      | inl set_ ↦ inr (elim (Bool-cases (has_ended s.worker)) [
        | inl gone ↦ inl (gone, if_true s.has_loop _ _ set_ ∙ if_true (has_ended s.worker) _ _ gone)
        | inr there ↦ inr (
          sym e ∙ set_,
          there,
          if_true s.has_loop _ _ set_ ∙ if_false (has_ended s.worker) _ _ there,
        )
      ])
    ]
