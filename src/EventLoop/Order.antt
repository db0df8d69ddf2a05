-- ===== src/EventLoop/Order.antt =====
-- When an event can come, what holds between events, and what is queued and called.
use chaonet.Common.{
  ℕ, ◌+◌, ◌<◌, ◌≡◌, ◌⊎◌, Bool, true, false, not, ◌&&◌, ◌||◌, List, [], ◌∷◌, ◌++◌, arith, refl, ap,
  ltb,
}
use chaonet.EventLoop.{
  Phase, outside, polling, handling, calling, EventLoop, Call, at_once, from_queue, Event, enters,
  returns, woken, swaps, calls_next, finishes, wakes, quits, queues, runs, pushes,
}

abbrev pub is_calling : Phase → Bool
is_calling calling = true
is_calling _ = false

abbrev pub is_outside : Phase → Bool
is_outside outside = true
is_outside _ = false

abbrev pub is_handling : Phase → Bool
is_handling handling = true
is_handling _ = false

abbrev pub is_polling : Phase → Bool
is_polling polling = true
is_polling _ = false

abbrev pub is_empty : List ℕ → Bool
is_empty [] = true
is_empty (x ∷ xs) = false

-- Whether the event can come in this phase: the loop's own steps in their order, calls of its thread
-- while it handles events or functors, and calls of other threads at any time.
abbrev pub allowed : EventLoop → Event → Bool
allowed l enters = is_outside l.phase
allowed l returns = is_polling l.phase
allowed l woken = is_handling l.phase
allowed l swaps = is_handling l.phase
allowed l calls_next = is_calling l.phase && not (is_empty l.functors)
allowed l finishes = is_calling l.phase && is_empty l.functors
allowed l wakes = ltb 0 l.owed
allowed l (quits in_loop) = true
allowed l (queues f) = is_handling l.phase || is_calling l.phase
allowed l (runs f) = true
allowed l (pushes f) = true

-- Unless the loop is about to take the pending functors, one that is pending has raised the eventfd, or
-- a thread is about to.
pub record Inv (l : EventLoop) : Type 0 where
  pub awake : is_handling l.phase ≡ false → (l.pending ≡ []) ⊎ (0 < l.wakeups + l.owed)
  pub rest : is_calling l.phase ≡ false → l.functors ≡ []
  pub flag : l.calling_pending_functors ≡ is_calling l.phase
  pub looping : l.looping ≡ not (is_outside l.phase)

-- The functors that an event queues.
abbrev pub queued : Event → List ℕ
queued (queues f) = f ∷ []
queued (pushes f) = f ∷ []
queued _ = []

abbrev pub all_queued : List Event → List ℕ
all_queued [] = []
all_queued (e ∷ es) = queued e ++ all_queued es

-- The functors that doPendingFunctors called.
abbrev pub dequeued : List Call → List ℕ
dequeued [] = []
dequeued (at_once f ∷ cs) = dequeued cs
dequeued (from_queue f ∷ cs) = f ∷ dequeued cs

pub dequeued-append : (xs ys : List Call) → dequeued (xs ++ ys) ≡ dequeued xs ++ dequeued ys
dequeued-append [] ys = refl
dequeued-append (at_once f ∷ xs) ys = dequeued-append xs ys
dequeued-append (from_queue f ∷ xs) ys = ap (λ zs. f ∷ zs) (dequeued-append xs ys)

-- What the phases exclude.
pub outside_phase :
    (p : Phase) → is_outside p ≡ true → (is_calling p ≡ false) × (is_handling p ≡ false)
outside_phase p h = ground arith

pub polling_phase :
    (p : Phase) → is_polling p ≡ true → (is_calling p ≡ false) × (is_outside p ≡ false)
polling_phase p h = ground arith

pub handling_phase :
    (p : Phase) → is_handling p ≡ true → (is_calling p ≡ false) × (is_outside p ≡ false)
handling_phase p h = ground arith

pub calling_phase :
    (p : Phase) → is_calling p ≡ true → (is_handling p ≡ false) × (is_outside p ≡ false)
calling_phase p h = ground arith
