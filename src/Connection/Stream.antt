-- ===== src/Connection/Stream.antt =====
-- handleWrite, and the order of the bytes on the wire.
use chaonet.Common.{
  ℕ, ◌+◌, ◌≤◌, ◌≡◌, refl, sym, ap, ◌∙◌, inl, inr, Bool, true, false, not, List, [], ◌∷◌, ◌++◌,
  append-nil, ok, ◌==◌, Bool-cases, arith, length, take, drop, ltb, take-append-drop,
}
use chaonet.Buffer.{Buffer, readable_bytes, contents}
use chaonet.Buffer.Consume.{Took, retrieve-Took}
use chaonet.Channel.{Channel, is_writing, disable_writing}
use chaonet.Channel.Events.{is_writing-Watches, disable_writing-Watches}
use chaonet.Connection.{
  Connection, disconnecting, same_state, Action, interest, queue, wrote, write_complete, Write,
  shuts_write, logs_error, would_block, write_error, accepted, when, drained, shutdown_in_loop,
  write_some, handle_write,
}
use chaonet.Connection.Inv.{Ready, wired, wired-append, tells_complete, tells_complete-before}
use chaonet.Connection.Sending.{Accepts, Sent, wired-when}

-- Draining turns writing off and sends nothing.
drained-silent :
    (c : Connection)
    → (actions : List Action) × (drained c
        ≡ ok (record c { channel = disable_writing c.channel }, actions))
      × (wired actions ≡ [])
      × (c.has_write_complete ≡ true → tells_complete actions ≡ true)
unfolding drained shutdown_in_loop
drained-silent c = elim (Bool-cases (same_state c.state disconnecting)) [
  | inl closing ↦ (
    told ++ when (not (is_writing k)) shuts_write,
    rw closing,
    wired-append told (when (not (is_writing k)) shuts_write)
        ∙ ap (λ m. m ++ wired (when (not (is_writing k)) shuts_write)) quiet
        ∙ wired-when (not (is_writing k)) shuts_write refl,
    λ h. (tells_complete-before told (when (not (is_writing k)) shuts_write) (tells h)),
  )
  | inr up ↦ (told, rw up, quiet, tells)
]
  where
    k : Channel
    k = disable_writing c.channel

    told : List Action
    told = interest k.events ∷ when c.has_write_complete (queue write_complete)

    quiet : wired told ≡ []
    quiet = wired-when c.has_write_complete (queue write_complete) refl

    tells : c.has_write_complete ≡ true → tells_complete told ≡ true
    tells h = rw h (unfold when in refl)

module _ (c : Connection) (r : Ready c) where
  -- Nothing went out.
  unsent : (actions : List Action) → wired actions ≡ [] → Sent c [] c actions
  unsent actions quiet = record {
    ready = r;
    stream = ap (λ m. m ++ contents c.output) quiet ∙ sym (append-nil (contents c.output));
    state = refl;
    input = refl;
    end = omega arith;
    reading = refl;
    completes = refl;
    wakes = λ left _. inl left;
  }

  write_some-Sent :
      (n : ℕ)
      → n ≤ length (contents c.output)
      → r.writes ≡ true
      → (c' : Connection) × (actions : List Action) × (write_some c n ≡ ok (c', actions))
        × Sent c [] c' actions
  unfolding write_some
  write_some-Sent n fits writing =
      let (out, run, t) = retrieve-Took c.output n r.output_valid fits in
      let c' = record c { output = out } in
      elim (Bool-cases (readable_bytes out == 0)) [
        | inl empty ↦
            let (actions, done, quiet, tells) = drained-silent c' in
            (
              record c' { channel = disable_writing c.channel },
              sent ++ actions,
              rw run (rw empty (rw done)),
              record {
                ready = record {
                  input_valid = r.input_valid;
                  output_valid = t.valid;
                  reads = r.reads;
                  writes = false;
                  watches = disable_writing-Watches c.channel r.reads r.writes r.watches;
                  pending = inr (ap not (sym empty));
                };
                stream =
                    ap (λ m. (take n (contents c.output) ++ m) ++ contents out) quiet
                    ∙ whole out t.left;
                state = refl;
                input = refl;
                end = writer out t;
                reading = refl;
                completes = refl;
                wakes = λ _ is_set. inr (tells is_set);
              },
            )
        | inr more ↦ (
          c',
          sent,
          rw run (rw more),
          record {
            ready = record {
              input_valid = r.input_valid;
              output_valid = t.valid;
              reads = r.reads;
              writes = r.writes;
              watches = r.watches;
              pending = inr (writing ∙ ap not (sym more));
            };
            stream = whole out t.left;
            state = refl;
            input = refl;
            end = writer out t;
            reading = refl;
            completes = refl;
            wakes = λ _ _. inl (ap not more);
          },
        )
      ]
    where
      sent : List Action
      sent = wrote (take n (contents c.output)) ∷ []

      whole :
          (out : Buffer)
          → contents out ≡ drop n (contents c.output)
          → (take n (contents c.output) ++ []) ++ contents out ≡ contents c.output ++ []
      whole out left =
          ap (λ m. m ++ contents out) (append-nil (take n (contents c.output)))
          ∙ ap (◌++◌ (take n (contents c.output))) left
          ∙ take-append-drop n (contents c.output)
          ∙ sym (append-nil (contents c.output))

      writer : (out : Buffer) → Took c.output n out → out.writer_index ≤ c.output.writer_index + 0
      writer out t = omega (arith, t.back)

  handle_write-cases :
      (w : Write) (b : Bool)
      → is_writing c.channel ≡ b
      → r.writes ≡ b
      → Accepts w (length (contents c.output))
      → (c' : Connection) × (actions : List Action) × (handle_write c w ≡ ok (c', actions))
        × Sent c [] c' actions
  unfolding handle_write
  handle_write-cases would_block b e f a =
      (c, _, refl, unsent _ (wired-when (is_writing c.channel) logs_error refl))
  handle_write-cases write_error b e f a =
      (c, _, refl, unsent _ (wired-when (is_writing c.channel) logs_error refl))
  handle_write-cases (accepted n) false e f a = (c, [], rw e, unsent [] refl)
  handle_write-cases (accepted n) true e f a = elim (Bool-cases (ltb 0 n)) [
    | inl some_ ↦
        let (c', actions, run, s) = write_some-Sent n a f in (c', actions, rw e (rw some_ run), s)
    | inr zero_ ↦ (c, logs_error ∷ [], rw e (rw zero_), unsent (logs_error ∷ []) refl)
  ]

-- handleWrite returns, fails no assertion and keeps the connection ready: what the socket accepted,
-- followed by the output buffer, is the old output.
pub handle_write-Sent :
    (c : Connection) (w : Write)
    → Ready c
    → Accepts w (length (contents c.output))
    → (c' : Connection) × (actions : List Action) × (handle_write c w ≡ ok (c', actions))
      × Sent c [] c' actions
handle_write-Sent c w r a =
    handle_write-cases c r w r.writes (is_writing-Watches c.channel r.reads r.writes r.watches) refl
      a
