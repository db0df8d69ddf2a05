-- ===== src/EventLoopThread/Holds.antt =====
-- What holds in every state that the two threads reach, by a test of all states.
use chaonet.Common.{
  ℕ, ◌+◌, ◌<◌, ◌≡◌, refl, sym, ap, ◌∙◌, ◌⊎◌, inl, inr, Bool, true, false, not, ◌&&◌, ◌||◌, Option,
  none, some, Option-cases, Bool-cases, and_left, and_right, ltb, ltb→lt, if◌then◌else◌, if_true,
  arith,
}
use chaonet.EventLoopThread.{
  Worker, unstarted, spawned, built, locked, stored, notified, looping, ended, Starter, idle,
  started, checking, asleep, waking, returned, Owner, free, by_worker, by_starter, State, Event,
  starts, locks, checks, wakes, relocks, builds, worker_locks, stores, notifies, unlocks, ends,
  step, worker_step, starter_step, is_worker_event, when_free, notified_starter, spawn,
}
use chaonet.EventLoopThread.Cases.{all_states, all_states-true, all_events, all_events-true}

abbrev pub implies : Bool → Bool → Bool
implies a b = if a then b else true

abbrev pub holds_mutex : Worker → Bool
holds_mutex locked = true
holds_mutex stored = true
holds_mutex notified = true
holds_mutex w = false

abbrev pub has_stored : Worker → Bool
has_stored stored = true
has_stored notified = true
has_stored looping = true
has_stored ended = true
has_stored w = false

-- Behind notify_one.
abbrev pub has_notified : Worker → Bool
has_notified notified = true
has_notified looping = true
has_notified ended = true
has_notified w = false

abbrev pub same_owner : Owner → Owner → Bool
same_owner free free = true
same_owner by_worker by_worker = true
same_owner by_starter by_starter = true
same_owner a b = false

abbrev pub owner_of : Bool → Bool → Owner
owner_of true b = by_worker
owner_of false true = by_starter
owner_of false false = free

abbrev pub same_bool : Bool → Bool → Bool
same_bool true b = b
same_bool false b = not b

abbrev pub is_checking : Starter → Bool
is_checking checking = true
is_checking s = false

abbrev pub is_asleep : Starter → Bool
is_asleep asleep = true
is_asleep s = false

abbrev pub is_returned : Starter → Bool
is_returned returned = true
is_returned s = false

abbrev pub is_idle : Starter → Bool
is_idle idle = true
is_idle s = false

abbrev pub is_new : Worker → Bool
is_new unstarted = true
is_new w = false

-- The mutex is held by the thread that is inside its block, and by no other; loop_ is set behind its
-- assignment; a thread that sleeps will be woken.
abbrev pub holds : State → Bool
holds s =
    same_owner s.mutex (owner_of (holds_mutex s.worker) (is_checking s.starter))
    && (not (holds_mutex s.worker && is_checking s.starter)
        && (same_bool s.has_loop (has_stored s.worker)
            && (same_bool (is_idle s.starter) (is_new s.worker)
                && (implies (is_asleep s.starter) (not (has_notified s.worker))
                    && implies (is_returned s.starter) s.has_loop))))

abbrev pub rank : Worker → ℕ
rank unstarted = 70
rank spawned = 60
rank built = 50
rank locked = 40
rank stored = 30
rank notified = 20
rank looping = 10
rank ended = 0

abbrev pub left_to_do : Starter → ℕ
left_to_do idle = 6
left_to_do started = 5
left_to_do waking = 5
left_to_do checking = 4
left_to_do asleep = 1
left_to_do returned = 0

-- What is left to do, where nobody is woken without a reason.
abbrev pub measure : State → ℕ
measure s = rank s.worker + left_to_do s.starter

abbrev pub is_wake : Event → Bool
is_wake wakes = true
is_wake e = false

abbrev pub of_worker : Worker → Event
of_worker spawned = builds
of_worker built = worker_locks
of_worker locked = stores
of_worker stored = notifies
of_worker notified = unlocks
of_worker w = ends

abbrev pub of_starter : Worker → Starter → Event
of_starter w idle = starts
of_starter w started = locks
of_starter w waking = relocks
of_starter w checking = checks
of_starter w asleep = of_worker w
of_starter w returned = ends

-- A thread that can go on.
abbrev pub next : State → Event
next s = elim s.mutex [
  | free ↦ of_starter s.worker s.starter
  | by_worker ↦ of_worker s.worker
  | by_starter ↦ checks
]

kept_test : State → Event → Bool
unfolding step worker_step starter_step is_worker_event when_free notified_starter spawn
kept_test s e = implies (holds s) (elim (step s e) [
  | none ↦ true
  | some s' ↦ holds s' && (is_wake e || ltb (measure s') (measure s))
])

next_test : State → Bool
unfolding step worker_step starter_step is_worker_event when_free notified_starter spawn
next_test s =
    implies (holds s && not (is_returned s.starter))
      (elim (step s (next s)) [ none ↦ false | some s' ↦ not (is_wake (next s)) ])

kept_everywhere : all_states (λ s. all_events (λ e. kept_test s e)) ≡ true
unfolding kept_test step worker_step starter_step is_worker_event when_free notified_starter spawn
kept_everywhere = refl

next_everywhere : all_states next_test ≡ true
unfolding next_test step worker_step starter_step is_worker_event when_free notified_starter spawn
next_everywhere = refl

-- What a test of all states shows.
from_holds :
    (q : State → Bool)
    → all_states (λ s. implies (holds s) (q s)) ≡ true
    → (s : State) → holds s ≡ true
    → q s ≡ true
from_holds q everywhere s h =
    sym (if_true (holds s) (q s) true h)
    ∙ all_states-true (λ t. implies (holds t) (q t)) everywhere s

-- A step keeps what holds, and brings the return nearer unless it is a wake-up without a reason.
pub step-holds :
    (s s' : State) (e : Event)
    → holds s ≡ true
    → step s e ≡ some s'
    → (holds s' ≡ true) × ((is_wake e ≡ true) ⊎ (measure s' < measure s))
unfolding kept_test
step-holds s s' e h goes = (and_left (holds s') _ test, nearer (and_right (holds s') _ test))
  where
    test : (holds s' && (is_wake e || ltb (measure s') (measure s))) ≡ true
    test =
        sym (
          if_true (holds s) _ _ h
          ∙ ap
              (λ o. elim o [
                | none ↦ true
                | some t ↦ holds t && (is_wake e || ltb (measure t) (measure s))
              ])
              goes)
        ∙ all_events-true (kept_test s)
            (all_states-true (λ t. all_events (λ d. kept_test t d)) kept_everywhere s) e

    nearer :
        (is_wake e || ltb (measure s') (measure s)) ≡ true
        → (is_wake e ≡ true) ⊎ (measure s' < measure s)
    nearer k = elim (Bool-cases (is_wake e)) [
      | inl wakes_ ↦ inl wakes_
      | inr other ↦ inr (
          ltb→lt (measure s') (measure s)
            (sym (ap (λ b. b || ltb (measure s') (measure s)) other) ∙ k))
    ]

both_hold : {a b : Bool} → a ≡ true → b ≡ false → (a && not b) ≡ true
both_hold h e = ground (arith, h, e)

not-true : {a : Bool} → not a ≡ true → a ≡ false
not-true h = ground (arith, h)

-- Until startLoop has returned, a thread can go on by itself.
pub step-next :
    (s : State)
    → holds s ≡ true
    → is_returned s.starter ≡ false
    → (s' : State) × (step s (next s) ≡ some s') × (is_wake (next s) ≡ false)
unfolding next_test
step-next s h waits = elim (Option-cases (step s (next s))) [
  | inl stuck ↦ absurd (cc (sym (test none stuck) ∙ all_states-true next_test next_everywhere s))
  | inr (s', goes) ↦
      (s', goes, not-true (sym (test (some s') goes) ∙ all_states-true next_test next_everywhere s))
]
  where
    test :
        (o : Option State)
        → step s (next s) ≡ o
        → next_test s ≡ elim o [ none ↦ false | some t ↦ not (is_wake (next s)) ]
    test o e =
        if_true (holds s && not (is_returned s.starter)) _ _ (both_hold h waits)
        ∙ ap (λ r. elim r [ none ↦ false | some t ↦ not (is_wake (next s)) ]) e

implies-true : (a b : Bool) → implies a b ≡ true → a ≡ true → b ≡ true
implies-true a b h e = sym (if_true a b true e) ∙ h

-- A thread that has returned from startLoop has the loop, and one that sleeps will be woken.
pub holds-returned : (s : State) → holds s ≡ true → is_returned s.starter ≡ true → s.has_loop ≡ true
holds-returned s h =
    implies-true (is_returned s.starter) s.has_loop
      (from_holds (λ t. implies (is_returned t.starter) t.has_loop) refl s h)

pub holds-asleep :
    (s : State) → holds s ≡ true → is_asleep s.starter ≡ true → has_notified s.worker ≡ false
holds-asleep s h sleeps = not-true (
    implies-true (is_asleep s.starter) (not (has_notified s.worker))
      (from_holds (λ t. implies (is_asleep t.starter) (not (has_notified t.worker))) refl s h)
      sleeps)

-- loop_ is set behind its assignment.
pub holds-stored : (s : State) → holds s ≡ true → s.has_loop ≡ has_stored s.worker
holds-stored s h =
    same (s.has_loop) (has_stored s.worker)
      (from_holds (λ t. same_bool t.has_loop (has_stored t.worker)) refl s h)
  where
    same : (a b : Bool) → same_bool a b ≡ true → a ≡ b
    same true b e = sym e
    same false b e = sym (not-true e)
