-- ===== src/EventLoopThread/Tests.antt =====
-- A start in which startLoop has to wait, and a destructor that comes too late.
use chaonet.Common.{
  ◌≡◌, ◌<◌, refl, ◌⊎◌, true, false, List, [], ◌∷◌, some, ok, err, null_pointer, dangling_pointer,
}
use chaonet.EventLoopThread.{
  State, new_state, looping, ended, returned, free, Event, starts, locks, checks, relocks, builds,
  worker_locks, stores, notifies, unlocks, ends, run, step, destroy, has_ended, worker_step,
  starter_step, is_worker_event, when_free, notified_starter, spawn,
}
use chaonet.EventLoopThread.Holds.{
  measure, is_wake, is_asleep, is_returned, has_notified, has_stored,
}
use chaonet.EventLoopThread.Start.{Returns, run-Returns, destroy-run}

abbrev with_wait : List Event
with_wait =
    starts ∷ locks ∷ checks ∷ builds ∷ worker_locks ∷ stores ∷ notifies ∷ unlocks ∷ relocks ∷ checks
    ∷ []

abbrev begun : State
begun = record {
  worker = looping;
  starter = returned;
  mutex = free;
  has_loop = true;
  exiting = false;
}

with_wait-begun : run new_state with_wait ≡ some begun
unfolding run step worker_step starter_step is_worker_event when_free notified_starter spawn
with_wait-begun = refl

abbrev too_late : List Event
too_late = starts ∷ builds ∷ worker_locks ∷ stores ∷ notifies ∷ unlocks ∷ ends ∷ locks ∷ checks ∷ []

abbrev gone : State
gone = record begun { worker = ended }

too_late-gone : run new_state too_late ≡ some gone
unfolding run step worker_step starter_step is_worker_event when_free notified_starter spawn
too_late-gone = refl

run-Returns_example :
    (is_asleep begun.starter ≡ true → has_notified begun.worker ≡ false)
    × (is_returned begun.starter ≡ true → begun.has_loop ≡ true)
    × ((e : Event) (s' : State)
        → step begun e ≡ some s'
        → (is_wake e ≡ true) ⊎ (measure s' < measure begun))
    × Returns begun
run-Returns_example = run-Returns with_wait begun with_wait-begun

destroy-run_example :
    ((has_stored gone.worker ≡ false) × (destroy gone ≡ err null_pointer))
    ⊎ (((has_ended gone.worker ≡ true) × (destroy gone ≡ err dangling_pointer))
        ⊎ ((has_stored gone.worker ≡ true)
            × (has_ended gone.worker ≡ false)
            × (destroy gone ≡ ok (record gone { exiting = true }))))
destroy-run_example = destroy-run too_late gone too_late-gone
