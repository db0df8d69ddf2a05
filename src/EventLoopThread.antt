-- ===== src/EventLoopThread.antt =====
-- chaonet/src/EventLoopThread.cpp, chaonet/include/EventLoopThread.h and utils/Thread.h: a thread that
-- runs a loop, and the thread that starts it. Between two steps of the model no thread can see a
-- difference: what is done without the mutex is one step, and every use of the mutex is one.
pub mod Cases
pub mod Holds
pub mod Start
mod Tests
use chaonet.Common.{
  ℕ, Bool, true, false, not, List, [], ◌∷◌, Option, none, some, Result, ok, err, assert_failed,
  null_pointer, dangling_pointer, ◌>>◌, assert, if◌then◌else◌,
}

-- Where threadFunc is: `spawned` is before its first statement, and the loop lives from `built` on, as a
-- local variable, until `ended`.
pub data Worker : Type 0 where
  unstarted spawned built locked stored notified looping ended : Worker

-- Where startLoop is: `checking` is the test of the while loop, with the mutex held, and `waking` is
-- behind a wait that has yet to take the mutex again.
pub data Starter : Type 0 where
  idle started checking asleep waking returned : Starter

pub data Owner : Type 0 where
  free by_worker by_starter : Owner

-- `has_loop` says whether loop_ is set, and `exiting` is exiting_.
pub record State : Type 0 where
  pub worker : Worker
  pub starter : Starter
  pub mutex : Owner
  pub has_loop : Bool
  pub exiting : Bool

abbrev pub new_state : State
new_state = record {
  worker = unstarted;
  starter = idle;
  mutex = free;
  has_loop = false;
  exiting = false;
}

-- The steps of startLoop: thread_.start(), taking the mutex, the test and what follows it, a wake-up
-- that nobody asked for, taking the mutex again. Those of threadFunc: the loop is built, the mutex is
-- taken, loop_ is set, notify_one, the mutex is given back, loop() returns.
pub data Event : Type 0 where
  starts locks checks wakes relocks : Event
  builds worker_locks stores notifies unlocks ends : Event

-- Without the mutex, `none`.
when_free : Owner → State → Option State
when_free free s = some s
when_free by_worker s = none
when_free by_starter s = none

-- notify_one wakes the thread that waits.
notified_starter : Starter → Starter
notified_starter asleep = waking
notified_starter s = s

-- threadFunc.
worker_step : State → Worker → Event → Option State
unfolding when_free notified_starter
worker_step s spawned builds = some (record s { worker = built })
worker_step s built worker_locks =
    when_free s.mutex (record s { worker = locked; mutex = by_worker })
worker_step s locked stores = some (record s { worker = stored; has_loop = true })
worker_step s stored notifies =
    some (record s { worker = notified; starter = notified_starter s.starter })
worker_step s notified unlocks = some (record s { worker = looping; mutex = free })
worker_step s looping ends = some (record s { worker = ended })
worker_step s _ _ = none

-- Thread::start.
spawn : Worker → Worker
spawn unstarted = spawned
spawn w = w

-- startLoop behind its assertion.
starter_step : State → Starter → Event → Option State
unfolding when_free spawn
starter_step s idle starts = some (record s { starter = started; worker = spawn s.worker })
starter_step s started locks =
    when_free s.mutex (record s { starter = checking; mutex = by_starter })
starter_step s checking checks =
    some (record s { starter = if s.has_loop then returned else asleep; mutex = free })
starter_step s asleep wakes = some (record s { starter = waking })
starter_step s waking relocks =
    when_free s.mutex (record s { starter = checking; mutex = by_starter })
starter_step s _ _ = none

is_worker_event : Event → Bool
is_worker_event builds = true
is_worker_event worker_locks = true
is_worker_event stores = true
is_worker_event notifies = true
is_worker_event unlocks = true
is_worker_event ends = true
is_worker_event _ = false

-- `none` if the thread is not there, or has to wait for the mutex.
pub step : State → Event → Option State
unfolding worker_step starter_step is_worker_event
step s e = if is_worker_event e then worker_step s s.worker e else starter_step s s.starter e

-- Any order of the steps.
pub run : State → List Event → Option State
run s [] = some s
run s (e ∷ es) = elim (step s e) [ none ↦ none | some s' ↦ run s' es ]

pub is_unstarted : Worker → Bool
is_unstarted unstarted = true
is_unstarted w = false

-- The first statements of startLoop.
pub start_loop : State → Result (Option State)
unfolding is_unstarted step
start_loop s = do assert (is_unstarted s.worker); ok (step s starts)

pub has_ended : Worker → Bool
has_ended ended = true
has_ended w = false

-- The destructor up to thread_.join(): quit() is called on loop_.
pub destroy : State → Result State
unfolding has_ended
destroy s =
    if s.has_loop
    then (if has_ended s.worker then err dangling_pointer else ok (record s { exiting = true }))
    else err null_pointer
