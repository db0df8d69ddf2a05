-- ===== src/Connection/Steps.antt =====
-- The events that change a connection's state or interest and send nothing.
use chaonet.Common.{
  ◌+◌, ◌≤◌, ◌≡◌, refl, sym, ap, ◌∙◌, ◌≢◌, ◌||◌, bad_function_call, ◌⊎◌, inl, inr, Bool, true, false,
  not, List, [], ◌∷◌, ◌++◌, append-nil, ok, err, Fault, assert_failed, Bool-cases, arith, length,
}
use chaonet.Buffer.{contents}
use chaonet.Channel.{
  Channel, enable_reading, disable_reading, disable_all, is_reading, is_writing, is_none_event,
}
use chaonet.Channel.Events.{
  Watches, enable_reading-Watches, disable_reading-Watches, disable_all-Watches,
  is_none_event-Watches,
}
use chaonet.Connection.{
  Connection, State, connecting, connected, disconnecting, disconnected, same_state, Action,
  Outcome, interest, queue, calls_connection, calls_close, removes, shuts_write, when, Functor,
  shuts_down, start_read_in_loop, stop_read_in_loop, connection_established, connection_destroyed,
  shutdown, shutdown_in_loop, handle_close, run_in_loop, remove_from_loop,
}
use chaonet.Connection.Inv.{Ready, has_output, wired}
use chaonet.Connection.Sending.{wired-when}
use chaonet.Connection.Run.{
  Event, established, destroyed, shuts, handed, arrived, rank, allowed, may_close,
}

pub record Stepped (c : Connection) (e : Event) (r : Connection × List Action) : Type 0 where
  pub ready : Ready r.0
  pub stream : wired r.1 ++ contents r.0.output ≡ contents c.output ++ handed c e
  pub onward : rank c.state ≤ rank r.0.state
  pub output_end : r.0.output.writer_index ≤ c.output.writer_index + length (handed c e)
  pub input_end : r.0.input.writer_index ≤ c.input.writer_index + length (arrived e)

-- The event's handler returned as described, or a fault stopped an event that was not allowed.
abbrev pub ResultOf : Connection → Event → Outcome → Type 0
ResultOf c e o =
    ((r : Connection × List Action) × (o ≡ ok r) × Stepped c e r)
    ⊎ ((f : Fault) × (o ≡ err f) × (allowed c e ≡ false))

module _ (c : Connection) (e : Event) (r : Ready c) (silent : handed c e ≡ []) where
  -- An event that leaves the buffers alone.
  pub moved :
      (s : State) (k : Channel) (reading reads writes : Bool) (actions : List Action)
      → Watches k reads writes
      → (s ≡ disconnected) ⊎ (writes ≡ has_output c)
      → rank c.state ≤ rank s
      → wired actions ≡ []
      → Stepped c e (record c { state = s; channel = k; reading = reading }, actions)
  moved s k reading reads writes actions w p onward quiet = record {
    ready = record {
      input_valid = r.input_valid;
      output_valid = r.output_valid;
      reads = reads;
      writes = writes;
      watches = w;
      pending = p;
    };
    stream =
        ap (λ m. m ++ contents c.output) quiet
        ∙ sym (append-nil (contents c.output))
        ∙ ap (◌++◌ (contents c.output)) (sym silent);
    onward = onward;
    output_end = omega arith;
    input_end = omega arith;
  }

  pub same : (actions : List Action) → wired actions ≡ [] → Stepped c e (c, actions)
  same actions quiet =
      moved c.state c.channel c.reading r.reads r.writes actions r.watches r.pending (omega arith)
        quiet

same_state-eq : (a b : State) → same_state a b ≡ true → a ≡ b
same_state-eq connecting connecting h = refl
same_state-eq connected connected h = refl
same_state-eq disconnecting disconnecting h = refl
same_state-eq disconnected disconnected h = refl
same_state-eq _ _ h = cc

-- Before the connection is down, writing is on exactly while there is output.
pending_up :
    (c : Connection) (r : Ready c) (s : State)
    → c.state ≡ s
    → s ≢ disconnected
    → r.writes ≡ has_output c
pending_up c r s e ne = elim r.pending [ inl down ↦ absurd (ne (sym e ∙ down)) | inr p ↦ p ]

module _ (c : Connection) (r : Ready c) where
  pub established-step : ResultOf c established (connection_established c)
  unfolding connection_established
  established-step = elim (Bool-cases (same_state c.state connecting)) [
    | inl yes_ ↦
        let s = same_state-eq c.state connecting yes_ in
        inl (
          (
            record c { state = connected; channel = enable_reading c.channel },
            interest (enable_reading c.channel).events ∷ calls_connection ∷ [],
          ),
          rw yes_,
          moved c established r refl connected (enable_reading c.channel) c.reading true r.writes _
              (enable_reading-Watches c.channel r.reads r.writes r.watches)
              (inr (pending_up c r connecting s (λ e. cc))) (rw s (omega arith)) refl,
        )
    | inr no_ ↦ inr (assert_failed, rw no_, no_)
  ]

  pub close-step :
      (e : Event) → handed c e ≡ [] → allowed c e ≡ may_close c → ResultOf c e (handle_close c)
  unfolding handle_close
  close-step e silent same_test =
      elim (Bool-cases (same_state c.state connected || same_state c.state disconnecting)) [
        | inl yes_ ↦ elim (Bool-cases c.has_close) [
          | inl set_ ↦ inl (
            (
              record c { state = disconnected; channel = disable_all c.channel },
              interest 0 ∷ calls_connection ∷ calls_close ∷ [],
            ),
            rw yes_ (rw set_),
            moved c e r silent disconnected (disable_all c.channel) c.reading false false _
                (disable_all-Watches c.channel) (inl refl) (last c.state) refl,
          )
          | inr unset ↦ inr (bad_function_call, rw yes_ (rw unset), same_test ∙ rw yes_ unset)
        ]
        | inr no_ ↦ inr (assert_failed, rw no_, same_test ∙ rw no_)
      ]
    where
      last : (s : State) → rank s ≤ 3
      last connecting = omega arith
      last connected = omega arith
      last disconnecting = omega arith
      last disconnected = omega arith

  pub destroyed-step : ResultOf c destroyed (connection_destroyed c)
  unfolding connection_destroyed remove_from_loop
  destroyed-step = elim (Bool-cases (same_state c.state connected)) [
    | inl up ↦ inl (
      (
        record c { state = disconnected; channel = disable_all c.channel },
        interest 0 ∷ calls_connection ∷ removes ∷ [],
      ),
      rw up (
          rw (
            is_none_event-Watches (disable_all c.channel) false false
              (disable_all-Watches c.channel))),
      moved c destroyed r refl disconnected (disable_all c.channel) c.reading false false _
          (disable_all-Watches c.channel) (inl refl)
          (rw (same_state-eq c.state connected up) (omega arith)) refl,
    )
    | inr down ↦ elim (Bool-cases (is_none_event c.channel)) [
      | inl quiet ↦
          inl ((c, removes ∷ []), rw down (rw quiet), same c destroyed r refl (removes ∷ []) refl)
      | inr busy ↦ inr (assert_failed, rw down (rw busy), rw down busy)
    ]
  ]

  -- A call from another thread only queues a functor.
  pub run_in_loop-step :
      (e : Event) (d : Connection) (f : Functor) (b : Bool) (now : Outcome)
      → Stepped c e (d, queue f ∷ [])
      → ResultOf c e now
      → ResultOf c e (run_in_loop b d f now)
  unfolding run_in_loop
  run_in_loop-step e d f true now later there = there
  run_in_loop-step e d f false now later there = inl ((d, queue f ∷ []), refl, later)

  pub start-step : (e : Event) → handed c e ≡ [] → ResultOf c e (start_read_in_loop c)
  unfolding start_read_in_loop
  start-step e silent = elim (Bool-cases (not c.reading || not (is_reading c.channel))) [
    | inl on ↦ inl (
      (
        record c { channel = enable_reading c.channel; reading = true },
        interest (enable_reading c.channel).events ∷ [],
      ),
      rw on,
      moved c e r silent c.state (enable_reading c.channel) true true r.writes _
          (enable_reading-Watches c.channel r.reads r.writes r.watches) r.pending (omega arith)
          refl,
    )
    | inr off ↦ inl ((c, []), rw off, same c e r silent [] refl)
  ]

  pub stop-step : (e : Event) → handed c e ≡ [] → ResultOf c e (stop_read_in_loop c)
  unfolding stop_read_in_loop
  stop-step e silent = elim (Bool-cases (c.reading || is_reading c.channel)) [
    | inl on ↦ inl (
      (
        record c { channel = disable_reading c.channel; reading = false },
        interest (disable_reading c.channel).events ∷ [],
      ),
      rw on,
      moved c e r silent c.state (disable_reading c.channel) false false r.writes _
          (disable_reading-Watches c.channel r.reads r.writes r.watches) r.pending (omega arith)
          refl,
    )
    | inr off ↦ inl ((c, []), rw off, same c e r silent [] refl)
  ]

  pub half_close-step : (e : Event) → handed c e ≡ [] → ResultOf c e (shutdown_in_loop c)
  unfolding shutdown_in_loop
  half_close-step e silent = inl (
    (c, when (not (is_writing c.channel)) shuts_write),
    refl,
    same c e r silent _ (wired-when (not (is_writing c.channel)) shuts_write refl),
  )

  pub shut-step : (b : Bool) → ResultOf c (shuts b) (shutdown b c)
  unfolding shutdown shutdown_in_loop
  shut-step b = elim (Bool-cases (same_state c.state connected)) [
    | inl up ↦ rw up (
        run_in_loop-step (shuts b) (record c { state = disconnecting }) shuts_down b _
          (closing up (queue shuts_down ∷ []) refl)
          (inl (
            (record c { state = disconnecting }, when (not (is_writing c.channel)) shuts_write),
            refl,
            closing up _ (wired-when (not (is_writing c.channel)) shuts_write refl),
          )))
    | inr down ↦ inl ((c, []), rw down, same c (shuts b) r refl [] refl)
  ]
    where
      closing :
          same_state c.state connected ≡ true
          → (actions : List Action) → wired actions ≡ []
          → Stepped c (shuts b) (record c { state = disconnecting }, actions)
      closing up actions quiet =
          let s = same_state-eq c.state connected up in
          moved c (shuts b) r refl disconnecting c.channel c.reading r.reads r.writes actions
            r.watches (inr (pending_up c r connected s (λ x. cc))) (rw s (omega arith)) quiet
