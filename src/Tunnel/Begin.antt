-- ===== src/Tunnel/Begin.antt =====
-- How a tunnel begins: its client's connection comes up.
use chaonet.Common.{
  ℕ, ◌+◌, ◌≤◌, ◌≡◌, refl, sym, ap, ◌∙◌, subst, inl, inr, true, List, [], ◌∷◌, ◌++◌, append-nil, ok,
  ltb, ltb-eq-false, if_true, if_false, Bool-cases, length, arith,
}
use chaonet.Buffer.{contents, max_size, readable_bytes, retrieve_all}
use chaonet.Buffer.Consume.{readable-length}
use chaonet.Connection.{Connection, Action, Write, connected, same_state}
use chaonet.Connection.Inv.{Ready}
use chaonet.Connection.Ends.{
  End, Switched, start_read-Switched, send_buffer-Sent, emptied, Sent-End,
}
use chaonet.Tunnel.{
  Which, server, client, Tunnel, on, queued, send_waiting, on_client_connection,
  set_high_water_mark_callback, high_water_mark,
}
use chaonet.Tunnel.Link.{
  Linked, reads_on, wired_to, wired_to-on, wired_to-on_other, wired_to-append,
}

-- Both connections are up; what the server got so far waits in its input buffer.
pub record Beginning (t : Tunnel) : Type 0 where
  pub server_ready : Ready t.server_conn
  pub server_up : t.server_conn.state ≡ connected
  pub front : 8 ≤ t.server_conn.input.reader_index
  pub client_end : End t.client_conn
  pub client_reads : t.client_conn.reading ≡ true
  pub room : t.client_conn.output.writer_index + length (contents t.server_conn.input) ≤ max_size

-- The tunnel that comes of it.
pub record Begun (t : Tunnel) (s : Tunnel × List (Which × Action)) : Type 0 where
  pub linked : Linked (record { tunnel = s.0; pending = queued s.1 })
  pub server_quiet : wired_to server s.1 ≡ []
  pub server_output : s.0.server_conn.output ≡ t.server_conn.output
  pub client_stream :
      wired_to client s.1 ++ contents s.0.client_conn.output
      ≡ contents t.client_conn.output ++ contents t.server_conn.input

no_bytes : (xs : List ℕ) → length xs ≤ 0 → xs ≡ []
no_bytes [] h = refl
no_bytes (x ∷ xs) h = absurd (omega arith)

module _ (t : Tunnel) (w : Write) (b : Beginning t) where
  c0 : Connection
  c0 = set_high_water_mark_callback t.client_conn high_water_mark

  c0-End : End c0
  unfolding c0
  c0-End = record {
    ready = record {
      input_valid = b.client_end.ready.input_valid;
      output_valid = b.client_end.ready.output_valid;
      reads = b.client_end.ready.reads;
      writes = b.client_end.ready.writes;
      watches = b.client_end.ready.watches;
      pending = b.client_end.ready.pending;
    };
    up = b.client_end.up;
    front = b.client_end.front;
    taken = b.client_end.taken;
  }

  -- The tunnel before the waiting bytes are sent.
  opened : Connection → Tunnel
  unfolding c0
  opened s1 = record t { client_conn = c0; server_conn = s1; has_context = true; has_client = true }

  -- After sendInLoop of the waiting bytes, or with none.
  waiting :
      (s1 : Connection) (before : List Action)
      → Switched t.server_conn true s1 before
      → (s : Tunnel × List (Which × Action)) × (send_waiting (opened s1) w ≡ ok s)
        × Begun t (s.0, on server before ++ s.1)
  unfolding c0 opened send_waiting
  waiting s1 before sw = elim (Bool-cases (ltb 0 (readable_bytes s1.input))) [
    | inl more ↦
        let (c1, actions, sent, s) = send_buffer-Sent c0 s1.input w c0-End.ready c0-End.up (
          subst (λ i. t.client_conn.output.writer_index + length (contents i) ≤ max_size)
            (sym sw.input) b.room) in
        (
          (
            record (opened s1) {
              client_conn = c1;
              server_conn = record s1 { input = retrieve_all s1.input };
            },
            on client actions,
          ),
          if_true _ _ _ more ∙ rw sent,
          record {
            linked = record {
              server_end =
                  emptied s1 sw.ready (sw.state ∙ b.server_up)
                    (subst (λ i. 8 ≤ i.reader_index) (sym sw.input) b.front);
              client_end = Sent-End c0-End s;
              has_client = refl;
              has_context = refl;
              to_server = reads_on (s.reading ∙ b.client_reads);
              to_client = reads_on sw.reading;
            };
            server_quiet =
                wired_to-append server (on server before) (on client actions)
                ∙ ap (λ m. m ++ wired_to server (on client actions))
                    (wired_to-on server before ∙ sw.quiet)
                ∙ wired_to-on_other server client actions refl;
            server_output = sw.output;
            client_stream =
                ap (λ m. m ++ contents c1.output)
                  (wired_to-append client (on server before) (on client actions)
                    ∙ ap (λ m. m ++ wired_to client (on client actions))
                        (wired_to-on_other client server before refl)
                    ∙ wired_to-on client actions)
                ∙ s.stream
                ∙ ap (λ i. contents t.client_conn.output ++ contents i) sw.input;
          },
        )
    | inr none_left ↦
        let empty : contents s1.input ≡ [] = no_bytes _ (
          omega (
            arith,
            readable-length s1.input sw.ready.input_valid,
            ltb-eq-false 0 (readable_bytes s1.input) none_left,
          )) in
        (
          (opened s1, []),
          if_false _ _ _ none_left,
          record {
            linked = record {
              server_end = record {
                ready = sw.ready;
                up = sw.state ∙ b.server_up;
                front = subst (λ i. 8 ≤ i.reader_index) (sym sw.input) b.front;
                taken = empty;
              };
              client_end = c0-End;
              has_client = refl;
              has_context = refl;
              to_server = reads_on b.client_reads;
              to_client = reads_on sw.reading;
            };
            server_quiet =
                wired_to-append server (on server before) []
                ∙ ap (λ m. m ++ []) (wired_to-on server before ∙ sw.quiet);
            server_output = sw.output;
            client_stream =
                ap (λ m. m ++ contents t.client_conn.output)
                  (wired_to-append client (on server before) []
                    ∙ ap (λ m. m ++ []) (wired_to-on_other client server before refl))
                ∙ sym (append-nil (contents t.client_conn.output))
                ∙ ap (λ m. contents t.client_conn.output ++ m) (sym empty ∙ ap contents sw.input);
          },
        )
  ]

  -- When the client's connection comes up, onClientConnection fails no check, forwards the bytes that
  -- the server got before, if there is room, and leaves a linked tunnel, in which both are read.
  pub on_client_connection-Begun :
      (s : Tunnel × List (Which × Action)) × (on_client_connection t w ≡ ok s) × Begun t s
  unfolding on_client_connection c0 opened
  on_client_connection-Begun =
      let (s1, before, reads, sw) = start_read-Switched t.server_conn b.server_ready in
      let (s, sent, begun) = waiting s1 before sw in
      (
        (s.0, on server before ++ s.1),
        if_true _ _ _ (ap (λ x. same_state x connected) b.client_end.up) ∙ rw (reads, sent),
        begun,
      )
