-- ===== src/Connector/Run.antt =====
-- The connector in its loop: calls of its owner, the timer, the queued functors and the poller.
use chaonet.Common.{
  ℕ, suc, ◌+◌, Bool, List, [], ◌∷◌, ◌++◌, none, some, ok, ◌>>=◌, ◌==◌, if◌then◌else◌,
}
use chaonet.Connector.{
  Connector, connecting, same_states, Functor, starts_in_loop, resets_channel, Effect, opens,
  closes, hands_over, starts_timer, Outcome, start, start_in_loop, restart, stop, reset_channel,
  handle_write, handle_error,
}

-- Where the event can open a descriptor, it carries it and the errno of connect(2).
pub data Event : Type 0 where
  starts : Bool → ℕ → ℕ → Event
  fires runs_next restarts : ℕ → ℕ → Event
  stops errored : Event
  writable : ℕ → Bool → Event

unfoldable pub run_functor : Connector → List Functor → ℕ → ℕ → Outcome
run_functor c [] fd errno = ok (c, [])
run_functor c (starts_in_loop ∷ rest) fd errno = start_in_loop (record c { queued = rest }) fd errno
run_functor c (resets_channel ∷ rest) fd errno = ok (reset_channel (record c { queued = rest }), [])

unfoldable pub step : Connector → Event → Outcome
unfolding run_functor
step c (starts in_loop fd errno) = start in_loop c fd errno
step c (fires fd errno) = start_in_loop c fd errno
step c (runs_next fd errno) = run_functor c c.queued fd errno
step c (restarts fd errno) = restart c fd errno
step c stops = stop c
step c errored = handle_error c
step c (writable error self) = handle_write c error self

unfoldable pub run : Connector → List Event → Outcome
run c [] = ok (c, [])
run c (e ∷ es) = step c e >>= λ r. run r.0 es >>= λ s. ok (s.0, r.1 ++ s.1)

-- How often a descriptor was opened, and how often it was closed or handed over.
abbrev pub opened : ℕ → List Effect → ℕ
opened fd [] = 0
opened fd (opens x ∷ rest) = (if x == fd then 1 else 0) + opened fd rest
opened fd (_ ∷ rest) = opened fd rest

abbrev pub released : ℕ → List Effect → ℕ
released fd [] = 0
released fd (closes x ∷ rest) = (if x == fd then 1 else 0) + released fd rest
released fd (hands_over x ∷ rest) = (if x == fd then 1 else 0) + released fd rest
released fd (_ ∷ rest) = released fd rest

-- Whether the connector still owes a release of the descriptor.
abbrev pub held : Connector → ℕ → ℕ
held c fd =
    if same_states c.state connecting
    then elim c.channel [ none ↦ 0 | some channel ↦ if channel.fd == fd then 1 else 0 ]
    else 0

-- How many retries were started.
abbrev pub retries : List Effect → ℕ
retries [] = 0
retries (starts_timer d ∷ rest) = suc (retries rest)
retries (_ ∷ rest) = retries rest

abbrev pub delays : List Effect → List ℕ
delays [] = []
delays (starts_timer d ∷ rest) = d ∷ delays rest
delays (_ ∷ rest) = delays rest
