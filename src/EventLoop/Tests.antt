-- ===== src/EventLoop/Tests.antt =====
-- Another thread queues a functor while the loop polls, and that functor queues the next.
use chaonet.Common.{true, List, [], ◌∷◌}
use chaonet.EventLoop.{
  Event, enters, returns, woken, swaps, calls_next, finishes, wakes, pushes, queues, runs, quits,
}

abbrev events : List Event
events =
    enters
    ∷ pushes 7
    ∷ returns
    ∷ swaps
    ∷ wakes
    ∷ calls_next
    ∷ queues 8
    ∷ finishes
    ∷ returns
    ∷ woken
    ∷ runs 9
    ∷ swaps
    ∷ calls_next
    ∷ quits true
    ∷ finishes
    ∷ []
