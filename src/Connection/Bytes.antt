-- ===== src/Connection/Bytes.antt =====
-- The events that move bytes: sends, writes, reads, and what the user takes.
use chaonet.Common.{
  ℕ, ◌+◌, ◌≤◌, ◌<◌, ◌≡◌, refl, sym, ap, ◌∙◌, inl, inr, List, [], ◌∷◌, ◌++◌, append-nil,
  assert_failed, Bool-cases, arith, length, leb, leb→le, leb-eq-false, lt→leb-eq-false, lt→ltb,
}
use chaonet.Buffer.{Buffer, contents, max_size, Readv, received, failed}
use chaonet.Buffer.Layout.{IsValid}
use chaonet.Buffer.Append.{read_fd_lem}
use chaonet.Buffer.Consume.{retrieve_lem, readable-length}
use chaonet.Channel.{is_writing}
use chaonet.Connection.{
  Connection, Action, calls_message, logs_error, Write, would_block, write_error, accepted,
  send_in_loop, handle_error, handle_read, handle_write, write_some,
}
use chaonet.Connection.Inv.{Ready, wired}
use chaonet.Connection.Sending.{Accepts, send_in_loop-Sent}
use chaonet.Connection.Stream.{handle_write-Sent}
use chaonet.Connection.Run.{Event, writable, readable, takes, step, handed, arrived}
use chaonet.Connection.Steps.{Stepped, ResultOf, same, close-step}

module _ (c : Connection) (r : Ready c) where
  pub send-step :
      (e : Event) (message : List ℕ) (w : Write)
      → handed c e ≡ message
      → c.output.writer_index + length message ≤ max_size
      → ResultOf c e (send_in_loop c message w)
  send-step e message w same_bytes fits =
      let (c', actions, done, s) = send_in_loop-Sent c message w r fits in
      inl (
        (c', actions),
        done,
        record {
          ready = s.ready;
          stream = s.stream ∙ ap (◌++◌ (contents c.output)) (sym same_bytes);
          onward = rw s.state (omega arith);
          output_end = omega (arith, s.end, ap length same_bytes);
          input_end = rw s.input (omega arith);
        },
      )

  accepted-step :
      (w : Write)
      → Accepts w (length (contents c.output))
      → ResultOf c (writable w) (handle_write c w)
  accepted-step w a =
      let (c', actions, done, s) = handle_write-Sent c w r a in
      inl (
        (c', actions),
        done,
        record {
          ready = s.ready;
          stream = s.stream;
          onward = rw s.state (omega arith);
          output_end = s.end;
          input_end = rw s.input (omega arith);
        },
      )

  -- A count above what was offered fails the assertion of retrieve.
  excess-step :
      (n : ℕ)
      → length (contents c.output) < n
      → ResultOf c (writable (accepted n)) (handle_write c (accepted n))
  unfolding handle_write write_some
  excess-step n over = elim (Bool-cases (is_writing c.channel)) [
    | inr off ↦ inl ((c, []), rw off, same c (writable (accepted n)) r refl [] refl)
    | inl on ↦ elim (retrieve_lem c.output n r.output_valid) [
      | inl (small, _) ↦ absurd (omega (arith, readable-length c.output r.output_valid))
      | inr (_, fails) ↦ inr (
        assert_failed,
        rw on (rw (lt→ltb 0 n (omega arith)) (rw fails)),
        lt→leb-eq-false n _ (omega (arith, readable-length c.output r.output_valid)),
      )
    ]
  ]

  pub write-step : (w : Write) → ResultOf c (writable w) (handle_write c w)
  write-step would_block = accepted-step would_block tt
  write-step write_error = accepted-step write_error tt
  write-step (accepted n) = elim (Bool-cases (leb n (length (contents c.output)))) [
    | inl fits ↦ accepted-step (accepted n) (leb→le _ _ fits)
    | inr over ↦ excess-step n (leb-eq-false _ _ over)
  ]

  -- New input leaves everything but the input buffer alone.
  input-step :
      (e : Event) (b : Buffer) (actions : List Action)
      → handed c e ≡ []
      → IsValid b
      → b.writer_index ≤ c.input.writer_index + length (arrived e)
      → wired actions ≡ []
      → Stepped c e (record c { input = b }, actions)
  input-step e b actions silent v bound quiet = record {
    ready = record {
      input_valid = v;
      output_valid = r.output_valid;
      reads = r.reads;
      writes = r.writes;
      watches = r.watches;
      pending = r.pending;
    };
    stream =
        ap (λ m. m ++ contents c.output) quiet
        ∙ sym (append-nil (contents c.output))
        ∙ ap (◌++◌ (contents c.output)) (sym silent);
    onward = omega arith;
    output_end = omega arith;
    input_end = bound;
  }

  pub take-step : (n : ℕ) → ResultOf c (takes n) (step c (takes n))
  unfolding step
  take-step n = elim (retrieve_lem c.input n r.input_valid) [
    | inl (_, (b, run_, t)) ↦ inl (
      (record c { input = b }, []),
      rw run_,
      input-step (takes n) b [] refl t.valid (omega (arith, t.back)) refl,
    )
    | inr (over, run_) ↦ inr (assert_failed, rw run_, lt→leb-eq-false _ _ over)
  ]

  pub read-step :
      (a : Readv)
      → c.input.writer_index + length (arrived (readable a)) ≤ max_size
      → ResultOf c (readable a) (handle_read c a)
  unfolding handle_read handle_error
  read-step (failed errno) fits =
      inl ((c, logs_error ∷ []), refl, same c (readable (failed errno)) r refl _ refl)
  read-step (received []) fits = close-step c r (readable (received [])) refl refl
  read-step (received (x ∷ xs)) fits =
      let (b, run_, g) = (read_fd_lem c.input (x ∷ xs) r.input_valid fits).0 in
      inl (
        (record c { input = b }, calls_message ∷ []),
        rw run_,
        input-step (readable (received (x ∷ xs))) b _ refl g.valid g.end refl,
      )
