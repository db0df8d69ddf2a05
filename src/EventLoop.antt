-- ===== src/EventLoop.antt =====
-- chaonet/src/EventLoop.cpp and chaonet/include/EventLoop.h: the loop and the functors that are handed
-- to it. A functor is a number. What the loop's thread and the others do is a sequence of events.
pub mod Order
pub mod Steps
pub mod Wakeup
mod Tests
use chaonet.Common.{
  ℕ, ◌+◌, ◌-◌, Bool, true, false, not, ◌&&◌, ◌||◌, List, [], ◌∷◌, ◌++◌, Result, ok, ◌>>=◌, ◌>>◌,
  assert, ltb, if◌then◌else◌,
}

-- Where loop() stands: not in it, in poll, at the active channels, at the functors.
pub data Phase : Type 0 where
  outside polling handling calling : Phase

-- `pending` is pendingFunctors_, `functors` what is left of doPendingFunctors' copy of it. `wakeups` is
-- the counter of the eventfd. `owed` counts the other threads that stand between push_back and wakeup().
pub record EventLoop : Type 0 where
  pub looping : Bool
  pub quit : Bool
  pub calling_pending_functors : Bool
  pub pending : List ℕ
  pub functors : List ℕ
  pub wakeups : ℕ
  pub owed : ℕ
  pub phase : Phase

abbrev pub new_event_loop : EventLoop
new_event_loop = record {
  looping = false;
  quit = false;
  calling_pending_functors = false;
  pending = [];
  functors = [];
  wakeups = 0;
  owed = 0;
  phase = outside;
}

abbrev pub wakeup : EventLoop → EventLoop
wakeup l = record l { wakeups = l.wakeups + 1 }

abbrev pub push_functor : EventLoop → ℕ → EventLoop
push_functor l f = record l { pending = l.pending ++ f ∷ [] }

-- The first argument says whether the call is made in the loop's thread.
abbrev pub queue_in_loop : Bool → EventLoop → ℕ → EventLoop
queue_in_loop in_loop l f =
    let pushed = push_functor l f in
    if not in_loop || l.calling_pending_functors then wakeup pushed else pushed

-- A functor was called by runInLoop, or by doPendingFunctors.
pub data Call : Type 0 where
  at_once from_queue : ℕ → Call

abbrev pub run_in_loop : Bool → EventLoop → ℕ → EventLoop × List Call
run_in_loop true l f = (l, at_once f ∷ [])
run_in_loop false l f = (queue_in_loop false l f, [])

abbrev pub quit_loop : Bool → EventLoop → EventLoop
quit_loop in_loop l = let l' = record l { quit = true } in if in_loop then l' else wakeup l'

-- read(2) on the eventfd takes the whole counter.
abbrev pub handle_read : EventLoop → EventLoop
handle_read l = record l { wakeups = 0 }

-- The start of loop().
abbrev pub enter : EventLoop → Result EventLoop
enter l = assert (not l.looping) >> ok (record l { looping = true; quit = false; phase = polling })

-- The start of doPendingFunctors.
abbrev pub swap_functors : EventLoop → EventLoop
swap_functors l = record l {
  calling_pending_functors = true;
  functors = l.pending;
  pending = [];
  phase = calling;
}

-- The next functor of doPendingFunctors.
abbrev pub call_next : EventLoop → List ℕ → EventLoop × List Call
call_next l [] = (l, [])
call_next l (f ∷ fs) = (record l { functors = fs }, from_queue f ∷ [])

-- The end of doPendingFunctors and the test of the loop.
abbrev pub finish : EventLoop → EventLoop
finish l =
    let l' = record l { calling_pending_functors = false } in
    if l.quit then record l' { looping = false; phase = outside } else record l' { phase = polling }

-- `pushes` and `wakes` are the two halves of another thread's queueInLoop.
pub data Event : Type 0 where
  enters returns woken swaps calls_next finishes wakes : Event
  quits : Bool → Event
  queues runs pushes : ℕ → Event

-- The loop after an event, and the functors that were called.
pub step : EventLoop → Event → Result (EventLoop × List Call)
step l enters = enter l >>= λ l'. ok (l', [])
step l returns = ok (record l { phase = handling }, [])
step l woken = ok (handle_read l, [])
step l swaps = ok (swap_functors l, [])
step l calls_next = ok (call_next l l.functors)
step l finishes = ok (finish l, [])
step l wakes = ok (wakeup (record l { owed = l.owed - 1 }), [])
step l (quits in_loop) = ok (quit_loop in_loop l, [])
step l (queues f) = ok (queue_in_loop true l f, [])
step l (runs f) = ok (run_in_loop true l f)
step l (pushes f) = ok (record (push_functor l f) { owed = l.owed + 1 }, [])

pub run : EventLoop → List Event → Result (EventLoop × List Call)
unfolding step
run l [] = ok (l, [])
run l (e ∷ es) = step l e >>= λ r. run r.0 es >>= λ s. ok (s.0, r.1 ++ s.1)
