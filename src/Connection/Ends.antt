-- ===== src/Connection/Ends.antt =====
-- What one of two joined connections does: it gets bytes, sends bytes, stops reading and starts again.
use chaonet.Common.{
  ℕ, ◌+◌, ◌≤◌, ◌≡◌, subst, refl, sym, ap, ◌∙◌, inl, inr, Bool, true, false, not, ◌||◌, List, [],
  ◌∷◌, ◌++◌, ok, ◌>>=◌, Bool-cases, if_true, if_false, arith, length,
}
use chaonet.Buffer.{Buffer, contents, max_size, received, retrieve_all}
use chaonet.Buffer.Append.{read_fd_lem}
use chaonet.Buffer.Consume.{retrieve_all-nil}
use chaonet.Channel.{Channel, enable_reading, disable_reading, is_reading}
use chaonet.Channel.Events.{Watches, enable_reading-Watches, disable_reading-Watches}
use chaonet.Connection.{
  Connection, Action, Write, calls_message, connected, disconnecting, same_state, shutdown,
  shutdown_in_loop, interest, handle_read, send_buffer, start_read, stop_read, start_read_in_loop,
  stop_read_in_loop, run_in_loop,
}
use chaonet.Connection.Inv.{Ready, wired, functors}
use chaonet.Connection.Sending.{Sent, send_in_loop-Sent}
use chaonet.Connection.Lifecycle.{send_buffer-connected}

-- Such a connection between the calls of the loop: it is up, and what it got was passed on.
pub record End (c : Connection) : Type 0 where
  pub ready : Ready c
  pub up : c.state ≡ connected
  pub front : 8 ≤ c.input.reader_index
  pub taken : contents c.input ≡ []

-- Bytes came into the input buffer, and nothing else changed.
pub record Arrived (c : Connection) (bytes : List ℕ) (c' : Connection) : Type 0 where
  pub ready : Ready c'
  pub up : c'.state ≡ connected
  pub front : 8 ≤ c'.input.reader_index
  pub got : contents c'.input ≡ bytes
  pub output : c'.output ≡ c.output
  pub reading : c'.reading ≡ c.reading
  pub completes : c'.has_write_complete ≡ c.has_write_complete

-- Only the interest in reading changed.
pub record Switched (c : Connection) (to : Bool) (c' : Connection) (actions : List Action)
    : Type 0 where
  pub ready : Ready c'
  pub state : c'.state ≡ c.state
  pub input : c'.input ≡ c.input
  pub output : c'.output ≡ c.output
  pub completes : c'.has_write_complete ≡ c.has_write_complete
  pub reading : c'.reading ≡ to
  pub quiet : wired actions ≡ []
  pub idle : functors actions ≡ []

module _ {c : Connection} (e : End c) where
  pub handle_read-Arrived :
      (x : ℕ) (xs : List ℕ)
      → c.input.writer_index + length (x ∷ xs) ≤ max_size
      → (c' : Connection) × (handle_read c (received (x ∷ xs)) ≡ ok (c', calls_message ∷ []))
        × Arrived c (x ∷ xs) c'
  unfolding handle_read
  handle_read-Arrived x xs fits =
      let ((input, run, g), _) = read_fd_lem c.input (x ∷ xs) e.ready.input_valid fits in
      (
        record c { input = input },
        rw run,
        record {
          ready = record {
            input_valid = g.valid;
            output_valid = e.ready.output_valid;
            reads = e.ready.reads;
            writes = e.ready.writes;
            watches = e.ready.watches;
            pending = e.ready.pending;
          };
          up = e.up;
          front = omega (arith, g.cheap, e.front);
          got = g.appended ∙ ap (λ m. m ++ x ∷ xs) e.taken;
          output = refl;
          reading = refl;
          completes = refl;
        },
      )

-- What send(Buffer *) comes to.
pub send_buffer-Sent :
    (c : Connection) (b : Buffer) (w : Write)
    → Ready c
    → c.state ≡ connected
    → c.output.writer_index + length (contents b) ≤ max_size
    → (c' : Connection) × (actions : List Action) × (send_buffer true c b w
        ≡ ok (c', actions, retrieve_all b))
      × Sent c (contents b) c' actions
send_buffer-Sent c b w r up fits =
    let (c', actions, run, s) = send_in_loop-Sent c (contents b) w r fits in
    (
      c',
      actions,
      send_buffer-connected c b w up ∙ ap (λ o. o >>= λ r. ok (r.0, r.1, retrieve_all b)) run,
      s,
    )

-- An end whose input buffer was emptied.
pub emptied :
    (c : Connection)
    → Ready c
    → c.state ≡ connected
    → 8 ≤ c.input.reader_index
    → End (record c { input = retrieve_all c.input })
emptied c r up front =
    let (none_left, at, valid) = retrieve_all-nil c.input in
    record {
      ready = record {
        input_valid = valid r.input_valid front;
        output_valid = r.output_valid;
        reads = r.reads;
        writes = r.writes;
        watches = r.watches;
        pending = r.pending;
      };
      up = up;
      front = omega (arith, at);
      taken = none_left;
    }

module _ (c : Connection) (r : Ready c) where
  -- The channel changed, or nothing did.
  turned :
      (k : Channel) (to reads : Bool)
      → Watches k reads r.writes
      → Switched c to (record c { channel = k; reading = to }) (interest k.events ∷ [])
  turned k to reads w = record {
    ready = record {
      input_valid = r.input_valid;
      output_valid = r.output_valid;
      reads = reads;
      writes = r.writes;
      watches = w;
      pending = r.pending;
    };
    state = refl;
    input = refl;
    output = refl;
    completes = refl;
    reading = refl;
    quiet = refl;
    idle = refl;
  }

  unchanged : (to : Bool) → c.reading ≡ to → Switched c to c []
  unchanged to e = record {
    ready = r;
    state = refl;
    input = refl;
    output = refl;
    completes = refl;
    reading = e;
    quiet = refl;
    idle = refl;
  }

  pub start_read-Switched :
      (c' : Connection) × (actions : List Action) × (start_read true c ≡ ok (c', actions))
      × Switched c true c' actions
  unfolding start_read start_read_in_loop run_in_loop
  start_read-Switched = elim (Bool-cases (not c.reading || not (is_reading c.channel))) [
    | inl on ↦ (
      _,
      _,
      if_true _ _ _ on,
      turned (enable_reading c.channel) true true
          (enable_reading-Watches c.channel r.reads r.writes r.watches),
    )
    | inr off ↦ (c, [], if_false _ _ _ off, unchanged true (ground (arith, off)))
  ]

  pub stop_read-Switched :
      (c' : Connection) × (actions : List Action) × (stop_read true c ≡ ok (c', actions))
      × Switched c false c' actions
  unfolding stop_read stop_read_in_loop run_in_loop
  stop_read-Switched = elim (Bool-cases (c.reading || is_reading c.channel)) [
    | inl on ↦ (
      _,
      _,
      if_true _ _ _ on,
      turned (disable_reading c.channel) false false
          (disable_reading-Watches c.channel r.reads r.writes r.watches),
    )
    | inr off ↦ (c, [], if_false _ _ _ off, unchanged false (ground (arith, off)))
  ]

-- What stays of an end.
pub Sent-End :
    {c c' : Connection} {message : List ℕ} {actions : List Action}
    → End c
    → Sent c message c' actions
    → End c'
Sent-End e s = record {
  ready = s.ready;
  up = s.state ∙ e.up;
  front = subst (λ b. 8 ≤ b.reader_index) (sym s.input) e.front;
  taken = ap contents s.input ∙ e.taken;
}

pub Switched-End :
    {c c' : Connection} {to : Bool} {actions : List Action}
    → End c
    → Switched c to c' actions
    → End c'
Switched-End e s = record {
  ready = s.ready;
  up = s.state ∙ e.up;
  front = subst (λ b. 8 ≤ b.reader_index) (sym s.input) e.front;
  taken = ap contents s.input ∙ e.taken;
}

-- Setting or clearing the write-complete callback.
pub End-completes : (c : Connection) (b : Bool) → End c → End (record c { has_write_complete = b })
End-completes c b e = record {
  ready = record {
    input_valid = e.ready.input_valid;
    output_valid = e.ready.output_valid;
    reads = e.ready.reads;
    writes = e.ready.writes;
    watches = e.ready.watches;
    pending = e.ready.pending;
  };
  up = e.up;
  front = e.front;
  taken = e.taken;
}

-- shutdown on an end, in the loop's thread.
pub shutdown-Ready :
    (c : Connection)
    → End c
    → (actions : List Action) × (shutdown true c ≡ ok (record c { state = disconnecting }, actions))
      × Ready (record c { state = disconnecting })
unfolding shutdown shutdown_in_loop run_in_loop
shutdown-Ready c e = (
  _,
  if_true _ _ _ (ap (λ s. same_state s connected) e.up),
  record {
    input_valid = e.ready.input_valid;
    output_valid = e.ready.output_valid;
    reads = e.ready.reads;
    writes = e.ready.writes;
    watches = e.ready.watches;
    pending = elim e.ready.pending [ inl down ↦ absurd (cc (down, e.up)) | inr p ↦ inr p ];
  },
)
