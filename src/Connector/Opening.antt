-- ===== src/Connector/Opening.antt =====
-- A restarted connector makes an attempt (chaonet/src/Connector.cpp).
use chaonet.Common.{ℕ, ◌≡◌, true, List, [], ◌∷◌, ok, err, sym, ap}
use chaonet.Connector.{
  Connector, disconnected, Effect, opens, Outcome, also, verdict, go_on, connect_now, start_in_loop,
  restart, init_retry_delay_ms,
}

-- The first effect is the new descriptor.
abbrev pub Opens : ℕ → List Effect → Type 0
Opens fd effects = (rest : List Effect) × (effects ≡ opens fd ∷ rest)

also-Opens :
    (fd : ℕ) (o : Outcome) (r : Connector × List Effect)
    → also (opens fd ∷ []) o ≡ ok r
    → Opens fd r.1
unfolding also
also-Opens fd (err f) r e = absurd (cc (e))
also-Opens fd (ok (d, rest)) r e = (rest, ap (effects_of r.1) (sym e))
  where
    effects_of : List Effect → Outcome → List Effect
    effects_of other (err f) = other
    effects_of other (ok s) = s.1

-- A restarted connector calls connect with a new descriptor.
pub restart-Opens :
    (c : Connector) (fd errno : ℕ) (r : Connector × List Effect)
    → restart c fd errno ≡ ok r
    → Opens fd r.1
unfolding restart start_in_loop connect_now
restart-Opens c fd errno r e =
    also-Opens fd
      (go_on
        (record c { state = disconnected; retry_delay_ms = init_retry_delay_ms; connect = true }) fd
        (verdict errno))
      r e
