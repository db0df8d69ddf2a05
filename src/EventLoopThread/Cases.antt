-- ===== src/EventLoopThread/Cases.antt =====
-- Tests of all states at once.
use chaonet.Common.{◌≡◌, Bool, true, false, ◌&&◌, and_left, and_right}
use chaonet.EventLoopThread.{
  Worker, unstarted, spawned, built, locked, stored, notified, looping, ended, Starter, idle,
  started, checking, asleep, waking, returned, Owner, free, by_worker, by_starter, State, Event,
  starts, locks, checks, wakes, relocks, builds, worker_locks, stores, notifies, unlocks, ends,
}

abbrev pub all_workers : (Worker → Bool) → Bool
all_workers p =
    p unstarted
    && (p spawned
        && (p built && (p locked && (p stored && (p notified && (p looping && p ended))))))

abbrev pub all_starters : (Starter → Bool) → Bool
all_starters p = p idle && (p started && (p checking && (p asleep && (p waking && p returned))))

abbrev pub all_owners : (Owner → Bool) → Bool
all_owners p = p free && (p by_worker && p by_starter)

abbrev pub all_bools : (Bool → Bool) → Bool
all_bools p = p true && p false

abbrev pub all_events : (Event → Bool) → Bool
all_events p =
    p starts
    && (p locks
        && (p checks
            && (p wakes
                && (p relocks
                    && (p builds
                        && (p worker_locks
                            && (p stores && (p notifies && (p unlocks && p ends)))))))))

all_workers-true : (p : Worker → Bool) → all_workers p ≡ true → (x : Worker) → p x ≡ true
all_workers-true p h unstarted = and_left (p unstarted) _ h
all_workers-true p h spawned = and_left (p spawned) _ (and_right (p unstarted) _ h)
all_workers-true p h built =
    and_left (p built) _ (and_right (p spawned) _ (and_right (p unstarted) _ h))
all_workers-true p h locked =
    and_left (p locked) _
      (and_right (p built) _ (and_right (p spawned) _ (and_right (p unstarted) _ h)))
all_workers-true p h stored = and_left (p stored) _ (
    and_right (p locked) _
      (and_right (p built) _ (and_right (p spawned) _ (and_right (p unstarted) _ h))))
all_workers-true p h notified = and_left (p notified) _ (
    and_right (p stored) _ (
      and_right (p locked) _
        (and_right (p built) _ (and_right (p spawned) _ (and_right (p unstarted) _ h)))))
all_workers-true p h looping = and_left (p looping) _ (
    and_right (p notified) _ (
      and_right (p stored) _ (
        and_right (p locked) _
          (and_right (p built) _ (and_right (p spawned) _ (and_right (p unstarted) _ h))))))
all_workers-true p h ended = and_right (p looping) _ (
    and_right (p notified) _ (
      and_right (p stored) _ (
        and_right (p locked) _
          (and_right (p built) _ (and_right (p spawned) _ (and_right (p unstarted) _ h))))))

all_starters-true : (p : Starter → Bool) → all_starters p ≡ true → (x : Starter) → p x ≡ true
all_starters-true p h idle = and_left (p idle) _ h
all_starters-true p h started = and_left (p started) _ (and_right (p idle) _ h)
all_starters-true p h checking =
    and_left (p checking) _ (and_right (p started) _ (and_right (p idle) _ h))
all_starters-true p h asleep =
    and_left (p asleep) _
      (and_right (p checking) _ (and_right (p started) _ (and_right (p idle) _ h)))
all_starters-true p h waking = and_left (p waking) _ (
    and_right (p asleep) _
      (and_right (p checking) _ (and_right (p started) _ (and_right (p idle) _ h))))
all_starters-true p h returned = and_right (p waking) _ (
    and_right (p asleep) _
      (and_right (p checking) _ (and_right (p started) _ (and_right (p idle) _ h))))

all_owners-true : (p : Owner → Bool) → all_owners p ≡ true → (x : Owner) → p x ≡ true
all_owners-true p h free = and_left (p free) _ h
all_owners-true p h by_worker = and_left (p by_worker) _ (and_right (p free) _ h)
all_owners-true p h by_starter = and_right (p by_worker) _ (and_right (p free) _ h)

all_bools-true : (p : Bool → Bool) → all_bools p ≡ true → (x : Bool) → p x ≡ true
all_bools-true p h true = and_left (p true) _ h
all_bools-true p h false = and_right (p true) _ h

pub all_events-true : (p : Event → Bool) → all_events p ≡ true → (x : Event) → p x ≡ true
all_events-true p h starts = and_left (p starts) _ h
all_events-true p h locks = and_left (p locks) _ (and_right (p starts) _ h)
all_events-true p h checks =
    and_left (p checks) _ (and_right (p locks) _ (and_right (p starts) _ h))
all_events-true p h wakes =
    and_left (p wakes) _ (and_right (p checks) _ (and_right (p locks) _ (and_right (p starts) _ h)))
all_events-true p h relocks = and_left (p relocks) _ (
    and_right (p wakes) _
      (and_right (p checks) _ (and_right (p locks) _ (and_right (p starts) _ h))))
all_events-true p h builds = and_left (p builds) _ (
    and_right (p relocks) _ (
      and_right (p wakes) _
        (and_right (p checks) _ (and_right (p locks) _ (and_right (p starts) _ h)))))
all_events-true p h worker_locks = and_left (p worker_locks) _ (
    and_right (p builds) _ (
      and_right (p relocks) _ (
        and_right (p wakes) _
          (and_right (p checks) _ (and_right (p locks) _ (and_right (p starts) _ h))))))
all_events-true p h stores = and_left (p stores) _ (
    and_right (p worker_locks) _ (
      and_right (p builds) _ (
        and_right (p relocks) _ (
          and_right (p wakes) _
            (and_right (p checks) _ (and_right (p locks) _ (and_right (p starts) _ h)))))))
all_events-true p h notifies = and_left (p notifies) _ (
    and_right (p stores) _ (
      and_right (p worker_locks) _ (
        and_right (p builds) _ (
          and_right (p relocks) _ (
            and_right (p wakes) _
              (and_right (p checks) _ (and_right (p locks) _ (and_right (p starts) _ h))))))))
all_events-true p h unlocks = and_left (p unlocks) _ (
    and_right (p notifies) _ (
      and_right (p stores) _ (
        and_right (p worker_locks) _ (
          and_right (p builds) _ (
            and_right (p relocks) _ (
              and_right (p wakes) _
                (and_right (p checks) _ (and_right (p locks) _ (and_right (p starts) _ h)))))))))
all_events-true p h ends = and_right (p unlocks) _ (
    and_right (p notifies) _ (
      and_right (p stores) _ (
        and_right (p worker_locks) _ (
          and_right (p builds) _ (
            and_right (p relocks) _ (
              and_right (p wakes) _
                (and_right (p checks) _ (and_right (p locks) _ (and_right (p starts) _ h)))))))))

-- The test holds in every state.
abbrev pub all_states : (State → Bool) → Bool
all_states p = all_workers (λ w. all_starters (λ s. all_owners (λ m. all_bools (λ l.
    all_bools
      (λ x. p (record { worker = w; starter = s; mutex = m; has_loop = l; exiting = x }))))))

pub all_states-true : (p : State → Bool) → all_states p ≡ true → (s : State) → p s ≡ true
all_states-true p h s =
    all_bools-true (λ x. p (record s { exiting = x }))
      (all_bools-true (λ l. all_bools (λ x. p (record s { has_loop = l; exiting = x })))
        (all_owners-true
          (λ m.
            all_bools (λ l. all_bools (λ x. p (record s { mutex = m; has_loop = l; exiting = x }))))
          (all_starters-true
            (λ t. all_owners (λ m. all_bools (λ l.
              all_bools (λ x. p (record s { starter = t; mutex = m; has_loop = l; exiting = x })))))
            (all_workers-true
              (λ w. all_starters (λ t. all_owners (λ m. all_bools (λ l. all_bools (λ x.
                p (record { worker = w; starter = t; mutex = m; has_loop = l; exiting = x }))))))
              h s.worker)
            s.starter)
          s.mutex)
        s.has_loop)
      s.exiting
