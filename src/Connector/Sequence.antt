-- ===== src/Connector/Sequence.antt =====
-- Any sequence of events of a connector.
use chaonet.Common.{
  ℕ, ◌≡◌, refl, ◌∙◌, Bool, true, false, not, ◌&&◌, ◌||◌, List, [], ◌∷◌, ◌++◌, is_some, ok, err,
  arith,
}
use chaonet.Connector.{
  Connector, disconnected, connecting, same_states, starts_in_loop, cancels_timer, start, stop,
  init_retry_delay_ms,
}
use chaonet.Connector.Run.{
  Event, starts, fires, runs_next, restarts, stops, errored, writable, step,
}
use chaonet.Connector.Attempts.{resets-append, Ready, kept, Attempts, may_connect}
use chaonet.Connector.Life.{
  next_allowed, relabel, start_in_loop-allowed, handle_write-allowed, handle_error-allowed,
  restart-allowed, run_functor-allowed,
}

-- What the code takes for granted: an attempt starts in a connector that has none and whose old channel
-- was reset, and the poller reports only what it was asked for.
abbrev pub allowed : Connector → Event → Bool
allowed c (starts true fd errno) = may_connect c
allowed c (starts false fd errno) = true
allowed c (fires fd errno) = may_connect c
allowed c (runs_next fd errno) = next_allowed c c.queued
allowed c (restarts fd errno) = not (same_states c.state connecting) && not (is_some c.channel)
allowed c stops = true
allowed c errored = same_states c.state connecting
allowed c (writable error self) = same_states c.state connecting || same_states c.state disconnected

-- The delay that a timer of the event has.
abbrev pub base : Connector → Event → ℕ
base c (restarts fd errno) = init_retry_delay_ms
base c _ = c.retry_delay_ms

-- Every allowed event returns, releases or keeps each descriptor, and starts at most one timer.
pub step-Attempts :
    (c : Connector) (e : Event) → Ready c → allowed c e ≡ true → Attempts c (base c e) (step c e)
unfolding step start stop
step-Attempts c (starts true fd errno) r a =
    relabel (λ x. refl)
      (start_in_loop-allowed (record c { connect = true })
        (record { attached = r.attached; pending = r.pending; bounded = r.bounded }) fd errno a)
step-Attempts c (starts false fd errno) r a = (
  (record c { connect = true; queued = c.queued ++ starts_in_loop ∷ [] }, []),
  refl,
  record {
    ready = record {
      attached = r.attached;
      pending = resets-append c.queued (starts_in_loop ∷ []) ∙ omega (arith, r.pending);
      bounded = r.bounded;
    };
    balanced = λ x. omega arith;
    pace = kept refl refl;
  },
)
step-Attempts c (fires fd errno) r a = start_in_loop-allowed c r fd errno a
step-Attempts c (runs_next fd errno) r a = run_functor-allowed c r c.queued fd errno refl a
step-Attempts c (restarts fd errno) r a = restart-allowed c r fd errno a
step-Attempts c stops r a = (
  (record c { connect = false }, cancels_timer ∷ []),
  refl,
  record {
    ready = record { attached = r.attached; pending = r.pending; bounded = r.bounded };
    balanced = λ x. omega arith;
    pace = kept refl refl;
  },
)
step-Attempts c errored r a = handle_error-allowed c r a
step-Attempts c (writable error self) r a = handle_write-allowed c r error self a

-- Every event is allowed in the connector that it finds.
abbrev pub all_allowed : Connector → List Event → Bool
all_allowed c [] = true
all_allowed c (e ∷ es) =
    allowed c e && elim (step c e) [ ok r ↦ all_allowed r.0 es | err f ↦ false ]
