-- ===== src/Connector/Life.antt =====
-- The connector's whole life: every event, and any sequence of them.
use chaonet.Common.{
  ℕ, suc, ◌+◌, ◌≡◌, refl, sym, ap, ◌∙◌, Bool, true, false, not, ◌&&◌, ◌||◌, List, [], ◌∷◌, ◌++◌,
  Option, none, some, is_some, ok, ◌==◌, if◌then◌else◌, arith, and_left, and_right, Bool-cases, inl,
  inr,
}
use chaonet.Channel.{Channel}
use chaonet.Connector.{
  Connector, States, disconnected, connecting, connected, same_states, Functor, starts_in_loop,
  resets_channel, Effect, closes, hands_over, unwatches, Outcome, start_in_loop, restart,
  reset_channel, handle_write, handle_error, retry, remove_and_reset_channel, init_retry_delay_ms,
}
use chaonet.Connector.Run.{run_functor, run, opened, released, held, delays}
use chaonet.Connector.Attempts.{
  resets, resets-append, owed, Ready, kept, doubled, Attempted, Attempts, may_connect, retry-cases,
  start_in_loop-Attempts,
}

same_states-eq : (a b : States) → same_states a b ≡ true → a ≡ b
same_states-eq disconnected disconnected h = refl
same_states-eq connecting connecting h = refl
same_states-eq connected connected h = refl
same_states-eq _ _ h = cc

is_none : (o : Option Channel) → not (is_some o) ≡ true → o ≡ none
is_none none h = refl
is_none (some x) h = cc

pick-Attempts :
    {c : Connector} {d : ℕ} (b : Bool) (p q : Connector × List Effect)
    → Attempted c d p
    → Attempted c d q
    → Attempts c d (ok (if b then p else q))
pick-Attempts true p q x y = (p, refl, x)
pick-Attempts false p q x y = (q, refl, y)

-- A connector that holds the same descriptor.
pub relabel :
    {c c' : Connector} {d : ℕ} {o : Outcome}
    → ((fd : ℕ) → held c fd ≡ held c' fd)
    → Attempts c' d o
    → Attempts c d o
relabel same (r, run, a) = (
  r,
  run,
  record {
    ready = a.ready;
    balanced = λ fd. ap (λ n. n + opened fd r.1) (same fd) ∙ a.balanced fd;
    pace = a.pace;
  },
)

pub remove_and_reset_channel-some :
    (c : Connector) (ch : Channel)
    → c.channel ≡ some ch
    → remove_and_reset_channel c ≡ ok (record c { queued = c.queued ++ resets_channel ∷ [] }, ch.fd)
unfolding remove_and_reset_channel
remove_and_reset_channel-some c ch e = rw e refl

idle_held : (c : Connector) → same_states c.state connecting ≡ false → (fd : ℕ) → held c fd ≡ 0
idle_held c e fd = rw e refl

abbrev pub next_allowed : Connector → List Functor → Bool
next_allowed c (starts_in_loop ∷ rest) = may_connect c
next_allowed c _ = true

module _ (c : Connector) (r : Ready c) where
  pub start_in_loop-allowed :
      (fd errno : ℕ) → may_connect c ≡ true → Attempts c c.retry_delay_ms (start_in_loop c fd errno)
  start_in_loop-allowed fd errno a =
      start_in_loop-Attempts c fd r
        (same_states-eq c.state disconnected (and_left (same_states c.state disconnected) _ a))
        (is_none c.channel (and_right (same_states c.state disconnected) _ a)) errno

  module _ (ch : Channel) (s : c.state ≡ connecting) (e : c.channel ≡ some ch) where
    abbrev taken : Connector
    taken = record c { queued = c.queued ++ resets_channel ∷ [] }

    holding : (fd : ℕ) → held c fd ≡ (if ch.fd == fd then 1 else 0)
    holding fd = rw (s, e) refl

    one_reset : (t : States) → owed t (some ch) ≡ 1 → resets taken.queued ≡ owed t c.channel
    one_reset t one =
        resets-append c.queued (resets_channel ∷ [])
        ∙ ap (λ n. n + 1) (r.pending ∙ ap (λ x. owed x c.channel) s)
        ∙ sym one
        ∙ ap (owed t) (sym e)

    retry-taken :
        Attempted c c.retry_delay_ms ((retry taken ch.fd).0, unwatches ∷ (retry taken ch.fd).1)
    retry-taken =
        retry-cases taken ch.fd (λ p. Attempted c c.retry_delay_ms (p.0, unwatches ∷ p.1))
          (record {
            ready = record {
              attached = λ x. cc;
              pending = one_reset disconnected refl;
              bounded = omega arith;
            };
            balanced = λ fd. omega (arith, holding fd);
            pace = doubled refl refl;
          })
          (record {
            ready = record {
              attached = λ x. cc;
              pending = one_reset disconnected refl;
              bounded = r.bounded;
            };
            balanced = λ fd. omega (arith, holding fd);
            pace = kept refl refl;
          })

    established : Bool → Connector × List Effect
    established b = (
      record taken { state = connected },
      unwatches ∷ (if b then hands_over ch.fd else closes ch.fd) ∷ [],
    )

    established-Attempted : (b : Bool) → Attempted c c.retry_delay_ms (established b)
    unfolding established
    established-Attempted true = record {
      ready = record {
        attached = λ x. cc;
        pending = one_reset connected refl;
        bounded = r.bounded;
      };
      balanced = λ fd. omega (arith, holding fd);
      pace = kept refl refl;
    }
    established-Attempted false = record {
      ready = record {
        attached = λ x. cc;
        pending = one_reset connected refl;
        bounded = r.bounded;
      };
      balanced = λ fd. omega (arith, holding fd);
      pace = kept refl refl;
    }

    handle_write-connecting :
        (error : ℕ) (self : Bool) → Attempts c c.retry_delay_ms (handle_write c error self)
    unfolding handle_write established
    handle_write-connecting error self =
        rw (ap (λ x. same_states x connecting) s, remove_and_reset_channel-some c ch e)
          (pick-Attempts (not (error == 0) || self) _ _ retry-taken
            (established-Attempted c.connect))

    handle_error-connecting : Attempts c c.retry_delay_ms (handle_error c)
    unfolding handle_error
    handle_error-connecting = (
      ((retry taken ch.fd).0, unwatches ∷ (retry taken ch.fd).1),
      rw (ap (λ x. same_states x connecting) s, remove_and_reset_channel-some c ch e) refl,
      retry-taken,
    )

  pub unchanged :
      (effects : List Effect)
      → ((fd : ℕ) → opened fd effects ≡ released fd effects)
      → delays effects ≡ []
      → Attempted c c.retry_delay_ms (c, effects)
  unchanged effects even quiet = record {
    ready = r;
    balanced = λ fd. omega (arith, even fd);
    pace = kept quiet refl;
  }

  pub attached_channel : c.state ≡ connecting → (ch : Channel) × (c.channel ≡ some ch)
  attached_channel s = find c.channel (r.attached s)
    where
      find : (o : Option Channel) → is_some o ≡ true → (ch : Channel) × (o ≡ some ch)
      find none h = cc
      find (some ch) h = (ch, refl)

  pub handle_write-allowed :
      (error : ℕ) (self : Bool)
      → (same_states c.state connecting || same_states c.state disconnected) ≡ true
      → Attempts c c.retry_delay_ms (handle_write c error self)
  handle_write-allowed error self a = elim (Bool-cases (same_states c.state connecting)) [
    | inl on ↦
        let s = same_states-eq c.state connecting on in
        let (ch, e) = attached_channel s in handle_write-connecting ch s e error self
    | inr off ↦
        let down : same_states c.state disconnected ≡ true =
          sym (ap (λ b. b || same_states c.state disconnected) off) ∙ a in
        unfold handle_write in ((c, []), rw (off, down) refl, unchanged [] (λ fd. refl) refl)
  ]

  pub handle_error-allowed :
      same_states c.state connecting ≡ true → Attempts c c.retry_delay_ms (handle_error c)
  handle_error-allowed on =
      let s = same_states-eq c.state connecting on in
      let (ch, e) = attached_channel s in handle_error-connecting ch s e

  pub restart-allowed :
      (fd errno : ℕ)
      → (not (same_states c.state connecting) && not (is_some c.channel)) ≡ true
      → Attempts c init_retry_delay_ms (restart c fd errno)
  unfolding restart
  restart-allowed fd errno a =
      let off : same_states c.state connecting ≡ false =
        is_off _ (and_left (not (same_states c.state connecting)) _ a) in
      let free : c.channel ≡ none =
        is_none c.channel (and_right (not (same_states c.state connecting)) _ a) in
      relabel (λ x. idle_held c off x)
        (start_in_loop-Attempts
          (record c { state = disconnected; retry_delay_ms = init_retry_delay_ms; connect = true })
          fd
          (record {
            attached = λ x. cc;
            pending =
                r.pending
                ∙ ap (owed c.state) free
                ∙ nothing c.state
                ∙ sym (ap (owed disconnected) free);
            bounded = omega arith;
          })
          refl free errno)
    where
      is_off : (b : Bool) → not b ≡ true → b ≡ false
      is_off true h = cc
      is_off false h = refl

      nothing : (s : States) → owed s none ≡ 0
      nothing disconnected = refl
      nothing connecting = refl
      nothing connected = refl

  pub run_functor-allowed :
      (q : List Functor) (fd errno : ℕ)
      → c.queued ≡ q
      → next_allowed c q ≡ true
      → Attempts c c.retry_delay_ms (run_functor c q fd errno)
  unfolding run_functor reset_channel
  run_functor-allowed [] fd errno e a = ((c, []), refl, unchanged [] (λ x. refl) refl)
  run_functor-allowed (starts_in_loop ∷ rest) fd errno e a =
      relabel (λ x. refl)
        (start_in_loop-Attempts (record c { queued = rest }) fd
          (record {
            attached = r.attached;
            pending = sym (ap resets e) ∙ r.pending;
            bounded = r.bounded;
          })
          (same_states-eq c.state disconnected (and_left (same_states c.state disconnected) _ a))
          (is_none c.channel (and_right (same_states c.state disconnected) _ a)) errno)
  run_functor-allowed (resets_channel ∷ rest) fd errno e a =
      let (left, off) = over (resets rest) c.state c.channel (sym (ap resets e) ∙ r.pending) in
      (
        (record c { queued = rest; channel = none }, []),
        refl,
        record {
          ready = record {
            attached = λ s. cc (sym off ∙ ap (λ x. same_states x connecting) s);
            pending = left;
            bounded = r.bounded;
          };
          balanced = λ x. omega (
            arith,
            idle_held c off x,
            idle_held (record c { queued = rest; channel = none }) off x,
          );
          pace = kept refl refl;
        },
      )
    where
      over :
          (n : ℕ) (s : States) (o : Option Channel)
          → suc n ≡ owed s o
          → (n ≡ owed s none) × (same_states s connecting ≡ false)
      over n disconnected none h = absurd (omega arith)
      over n disconnected (some ch) h = (omega arith, refl)
      over n connecting o h = absurd (omega arith)
      over n connected none h = absurd (omega arith)
      over n connected (some ch) h = (omega arith, refl)
