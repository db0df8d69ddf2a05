-- ===== src/Connector/Attempts.antt =====
-- What every event leaves true of a connector, and what it owes to the operating system.
use chaonet.Common.{
  ℕ, suc, ◌+◌, ◌*◌, ◌≤◌, ◌≡◌, refl, sym, ap, ◌∙◌, min, Bool, true, false, not, ◌&&◌, List, [], ◌∷◌,
  ◌++◌, Option, none, some, is_some, ok, if◌then◌else◌, arith,
}
use chaonet.Channel.{Channel, new_channel, enable_writing}
use chaonet.Connector.{
  Connector, States, disconnected, connecting, same_states, Functor, starts_in_loop, resets_channel,
  Effect, opens, closes, starts_timer, watches, Outcome, start_in_loop, retry, connecting_on,
  Verdict, in_progress, try_again, hopeless, verdict, go_on, also, connect_now, max_retry_delay_ms,
}
use chaonet.Connector.Run.{opened, released, held, delays}

abbrev pub resets : List Functor → ℕ
resets [] = 0
resets (resets_channel ∷ rest) = suc (resets rest)
resets (starts_in_loop ∷ rest) = resets rest

pub resets-append : (xs ys : List Functor) → resets (xs ++ ys) ≡ resets xs + resets ys
resets-append [] ys = omega arith
resets-append (resets_channel ∷ xs) ys = omega (arith, resets-append xs ys)
resets-append (starts_in_loop ∷ xs) ys = resets-append xs ys

-- How many resets the loop owes the connector: one while it has a channel that it no longer uses.
abbrev pub owed : States → Option Channel → ℕ
owed connecting channel = 0
owed _ none = 0
owed _ (some channel) = 1

-- A connector that is connecting has a channel, every channel that is done with is reset once, and the
-- delay is bounded.
pub record Ready (c : Connector) : Type 0 where
  pub attached : c.state ≡ connecting → is_some c.channel ≡ true
  pub pending : resets c.queued ≡ owed c.state c.channel
  pub bounded : c.retry_delay_ms ≤ max_retry_delay_ms

-- At most one timer was started, with the delay `d`; the next delay is twice as long, within the bound.
pub data Pace (d : ℕ) (effects : List Effect) (d' : ℕ) : Type 0 where
  kept : delays effects ≡ [] → d' ≡ d → Pace d effects d'
  doubled : delays effects ≡ d ∷ [] → d' ≡ min (d * 2) max_retry_delay_ms → Pace d effects d'

-- Every descriptor that was held or opened is released or held afterwards.
abbrev pub Balanced : Connector → Connector × List Effect → Type 0
Balanced c r = (fd : ℕ) → held c fd + opened fd r.1 ≡ released fd r.1 + held r.0 fd

pub record Attempted (c : Connector) (d : ℕ) (r : Connector × List Effect) : Type 0 where
  pub ready : Ready r.0
  pub balanced : Balanced c r
  pub pace : Pace d r.1 r.0.retry_delay_ms

abbrev pub Attempts : Connector → ℕ → Outcome → Type 0
Attempts c d o = (r : Connector × List Effect) × (o ≡ ok r) × Attempted c d r

pub if-Attempts :
    {c : Connector} {d : ℕ} (b : Bool) (o p : Outcome)
    → Attempts c d o
    → Attempts c d p
    → Attempts c d (if b then o else p)
if-Attempts true o p x y = x
if-Attempts false o p x y = y

-- A retry waits only if the connector is still wanted.
pub retry-cases :
    (d : Connector) (sockfd : ℕ) (P : Connector × List Effect → Type 0)
    → P (
      record d {
        state = disconnected;
        retry_delay_ms = min (d.retry_delay_ms * 2) max_retry_delay_ms;
      },
      closes sockfd ∷ starts_timer d.retry_delay_ms ∷ [],
    )
    → P (record d { state = disconnected }, closes sockfd ∷ [])
    → P (retry d sockfd)
unfolding retry
retry-cases d sockfd P x y = pick d.connect
  where
    pick :
        (b : Bool)
        → P (
            if b
            then (
              record d {
                state = disconnected;
                retry_delay_ms = min (d.retry_delay_ms * 2) max_retry_delay_ms;
              },
              closes sockfd ∷ starts_timer d.retry_delay_ms ∷ [],
            )
            else (record d { state = disconnected }, closes sockfd ∷ []))
    pick true = x
    pick false = y

-- A connector that is free to connect.
abbrev pub may_connect : Connector → Bool
may_connect c = same_states c.state disconnected && not (is_some c.channel)

module _ (c : Connector) (sockfd : ℕ) (r : Ready c) (down : c.state ≡ disconnected)
    (free : c.channel ≡ none) where
  no_resets : resets c.queued ≡ 0
  no_resets = r.pending ∙ rw (down, free) refl

  go_on-Attempts :
      (v : Verdict) → Attempts c c.retry_delay_ms (also (opens sockfd ∷ []) (go_on c sockfd v))
  unfolding go_on also connecting_on retry enable_writing
  go_on-Attempts in_progress =
      let channel =
        enable_writing (record (new_channel sockfd) { has_write = true; has_error = true }) in
      (
        (record c { state = connecting; channel = some channel }, opens sockfd ∷ watches ∷ []),
        rw (ap is_some free) refl,
        record {
          ready = record { attached = λ e. refl; pending = no_resets; bounded = r.bounded };
          balanced = λ fd. rw (ap (λ s. same_states s connecting) down) (ground arith);
          pace = kept refl refl;
        },
      )
  go_on-Attempts try_again = (
    ((retry c sockfd).0, opens sockfd ∷ (retry c sockfd).1),
    refl,
    retry-cases c sockfd (λ p. Attempted c c.retry_delay_ms (p.0, opens sockfd ∷ p.1))
        (record {
          ready = record {
            attached = λ e. cc;
            pending = no_resets ∙ ap (owed disconnected) (sym free);
            bounded = omega arith;
          };
          balanced = λ fd. rw (ap (λ s. same_states s connecting) down) (ground arith);
          pace = doubled refl refl;
        })
        (record {
          ready = record {
            attached = λ e. cc;
            pending = no_resets ∙ ap (owed disconnected) (sym free);
            bounded = r.bounded;
          };
          balanced = λ fd. rw (ap (λ s. same_states s connecting) down) (ground arith);
          pace = kept refl refl;
        }),
  )
  go_on-Attempts hopeless = (
    _,
    refl,
    record { ready = r; balanced = λ fd. rw down (ground arith); pace = kept refl refl },
  )

  connect_now-Attempts : (errno : ℕ) → Attempts c c.retry_delay_ms (connect_now c sockfd errno)
  unfolding connect_now also
  connect_now-Attempts errno = go_on-Attempts (verdict errno)

  pub start_in_loop-Attempts :
      (errno : ℕ) → Attempts c c.retry_delay_ms (start_in_loop c sockfd errno)
  unfolding start_in_loop
  start_in_loop-Attempts errno = rw (ap (λ s. same_states s disconnected) down) (
      if-Attempts c.connect (connect_now c sockfd errno) (ok (c, [])) (connect_now-Attempts errno)
        ((c, []), refl, record { ready = r; balanced = λ fd. omega arith; pace = kept refl refl }))
