-- ===== src/Connector/Backoff.antt =====
-- The delays between the attempts of a connector.
use chaonet.Common.{
  ℕ, zero, suc, ◌+◌, ◌*◌, ◌^◌, ◌≡◌, refl, sym, ap, ◌∙◌, min, Bool, true, false, List, [], ◌∷◌, ◌++◌,
  ok, arith, and_left, and_right,
}
use native.Mathlib.Nat.{pow-suc, mul_assoc}
use chaonet.Connector.{
  Connector, Effect, opens, closes, hands_over, starts_timer, watches, unwatches, cancels_timer,
  max_retry_delay_ms,
}
use chaonet.Connector.Run.{
  Event, starts, fires, runs_next, restarts, stops, errored, writable, step, run, delays,
}
use chaonet.Connector.Attempts.{Ready, kept, doubled}
use chaonet.Connector.Sequence.{allowed, base, all_allowed, step-Attempts}

-- The delays of `n` retries, from the `i`-th on.
abbrev pub ladder : ℕ → ℕ → ℕ → List ℕ
ladder d i zero = []
ladder d i (suc n) = min (d * 2 ^ i) max_retry_delay_ms ∷ ladder d (suc i) n

abbrev pub no_restarts : List Event → Bool
no_restarts [] = true
no_restarts (restarts fd errno ∷ es) = false
no_restarts (_ ∷ es) = no_restarts es

no_restarts-head :
    (c : Connector) (e : Event) (es : List Event)
    → no_restarts (e ∷ es) ≡ true
    → (base c e ≡ c.retry_delay_ms) × (no_restarts es ≡ true)
no_restarts-head c (starts b fd errno) es h = (refl, h)
no_restarts-head c (fires fd errno) es h = (refl, h)
no_restarts-head c (runs_next fd errno) es h = (refl, h)
no_restarts-head c (restarts fd errno) es h = cc
no_restarts-head c stops es h = (refl, h)
no_restarts-head c errored es h = (refl, h)
no_restarts-head c (writable error self) es h = (refl, h)

delays-append : (xs ys : List Effect) → delays (xs ++ ys) ≡ delays xs ++ delays ys
delays-append [] ys = refl
delays-append (starts_timer d ∷ xs) ys = ap (◌∷◌ d) (delays-append xs ys)
delays-append (opens x ∷ xs) ys = delays-append xs ys
delays-append (closes x ∷ xs) ys = delays-append xs ys
delays-append (hands_over x ∷ xs) ys = delays-append xs ys
delays-append (watches ∷ xs) ys = delays-append xs ys
delays-append (unwatches ∷ xs) ys = delays-append xs ys
delays-append (cancels_timer ∷ xs) ys = delays-append xs ys

doubling :
    (d i : ℕ)
    → min (min (d * 2 ^ i) max_retry_delay_ms * 2) max_retry_delay_ms
      ≡ min (d * 2 ^ suc i) max_retry_delay_ms
doubling d i =
    capped (d * 2 ^ i)
    ∙ ap (λ m. min m max_retry_delay_ms)
        (sym (ap (λ m. d * m) (pow-suc 2 i) ∙ sym (mul_assoc d (2 ^ i) 2)))
  where
    capped :
        (x : ℕ)
        → min (min x max_retry_delay_ms * 2) max_retry_delay_ms ≡ min (x * 2) max_retry_delay_ms
    capped x = omega arith

-- The delays started so far and the next delay, from the `i`-th doubling of `d`.
abbrev pub OnLadder : ℕ → ℕ → List Effect → ℕ → Type 0
OnLadder d i effects next =
    (n : ℕ) × (delays effects ≡ ladder d i n) × (next ≡ min (d * 2 ^ (i + n)) max_retry_delay_ms)

module _ (d i x y z : ℕ) (xs ys : List Effect) (at : x ≡ min (d * 2 ^ i) max_retry_delay_ms) where
  climb_kept : delays xs ≡ [] → OnLadder d i ys z → OnLadder d i (xs ++ ys) z
  climb_kept quiet (n, l, t) = (n, delays-append xs ys ∙ ap (λ m. m ++ delays ys) quiet ∙ l, t)

  climb_doubled : delays xs ≡ x ∷ [] → OnLadder d (suc i) ys z → OnLadder d i (xs ++ ys) z
  climb_doubled one (n, l, t) = (
    suc n,
    delays-append xs ys
        ∙ ap (λ m. m ++ delays ys) one
        ∙ ap (λ m. m ∷ delays ys) at
        ∙ ap (◌∷◌ (min (d * 2 ^ i) max_retry_delay_ms)) l,
    t ∙ ap (λ m. min (d * 2 ^ m) max_retry_delay_ms) (omega arith),
  )

then_run :
    (c : Connector) (e : Event) (es : List Event) (p q : Connector × List Effect)
    → step c e ≡ ok p
    → run p.0 es ≡ ok q
    → run c (e ∷ es) ≡ ok (q.0, p.1 ++ q.1)
unfolding run
then_run c e es p q goes ends = rw goes (rw ends)

climb_all :
    (c : Connector) (es : List Event) (d i : ℕ)
    → Ready c
    → all_allowed c es ≡ true
    → no_restarts es ≡ true
    → c.retry_delay_ms ≡ min (d * 2 ^ i) max_retry_delay_ms
    → (r : Connector × List Effect) × (run c es ≡ ok r) × OnLadder d i r.1 r.0.retry_delay_ms
unfolding run
climb_all c [] d i r a calm at =
    ((c, []), refl, (zero, refl, at ∙ ap (λ m. min (d * 2 ^ m) max_retry_delay_ms) (omega arith)))
climb_all c (e ∷ es) d i r a calm at =
    let (p, goes, s) = step-Attempts c e r (and_left (allowed c e) _ a) in
    let (same, rest) = no_restarts-head c e es calm in
    let here = same ∙ at in
    let more : all_allowed p.0 es ≡ true = and_right (allowed c e) _ (sym (rw goes) ∙ a) in
    elim s.pace [
      | kept quiet next ↦
          let (q, ends, l) = climb_all p.0 es d i s.ready more rest (next ∙ here) in
          (
            (q.0, p.1 ++ q.1),
            then_run c e es p q goes ends,
            climb_kept d i (base c e) p.0.retry_delay_ms q.0.retry_delay_ms p.1 q.1 here quiet l,
          )
      | doubled one next ↦
          let (q, ends, l) =
            climb_all p.0 es d (suc i) s.ready more rest
              (next ∙ ap (λ m. min (m * 2) max_retry_delay_ms) here ∙ doubling d i) in
          (
            (q.0, p.1 ++ q.1),
            then_run c e es p q goes ends,
            climb_doubled d i (base c e) p.0.retry_delay_ms q.0.retry_delay_ms p.1 q.1 here one l,
          )
    ]

-- In any sequence of allowed events without a restart, the k-th retry waits d * 2^k milliseconds, but
-- never more than kMaxRetryDelayMs, where `d` is the delay at the start.
pub run-OnLadder :
    (c : Connector) (es : List Event)
    → Ready c
    → all_allowed c es ≡ true
    → no_restarts es ≡ true
    → (r : Connector × List Effect) × (run c es ≡ ok r)
      × OnLadder c.retry_delay_ms 0 r.1 r.0.retry_delay_ms
run-OnLadder c es r a calm = climb_all c es c.retry_delay_ms 0 r a calm (omega (arith, r.bounded))
