-- ===== src/EventLoop/Wakeup.antt =====
-- No functor is lost, and the loop does not sleep on one.
use chaonet.Common.{err, ◌≡◌, Bool, true, false, ◌&&◌, List, [], ◌∷◌, ◌++◌, Result, ok}
use chaonet.EventLoop.{EventLoop, Call, Event, step}
use chaonet.EventLoop.Order.{Inv, allowed, all_queued, dequeued}

abbrev pub in_value : Result (EventLoop × List Call) → (EventLoop → Bool) → Bool
in_value (err f) test = false
in_value (ok r) test = test r.0

-- Each event is allowed where it comes.
unfoldable pub all_allowed : EventLoop → List Event → Bool
all_allowed l [] = true
all_allowed l (e ∷ es) = allowed l e && in_value (step l e) (λ l'. all_allowed l' es)

pub record Kept (l : EventLoop) (es : List Event) (o : Result (EventLoop × List Call))
    : Type 0 where
  pub last : EventLoop
  pub calls : List Call
  pub run_ok : o ≡ ok (last, calls)
  pub inv : Inv last
  pub order :
      dequeued calls ++ (last.functors ++ last.pending) ≡ (l.functors ++ l.pending) ++ all_queued es
