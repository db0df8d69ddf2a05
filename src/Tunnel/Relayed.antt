-- ===== src/Tunnel/Relayed.antt =====
-- Every event keeps a tunnel linked, and passes on what comes.
use chaonet.Common.{
  ℕ, ◌+◌, ◌≤◌, ◌≡◌, refl, sym, ap, ◌∙◌, subst, List, [], ◌∷◌, ◌++◌, append-nil, ok, length,
}
use chaonet.Buffer.{contents, max_size, retrieve_all}
use chaonet.Connection.{Connection, Action, Write}
use chaonet.Connection.Sending.{Sent, Accepts}
use chaonet.Connection.Stream.{handle_write-Sent}
use chaonet.Connection.Ends.{handle_read-Arrived, send_buffer-Sent, emptied, Sent-End}
use chaonet.Tunnel.{
  Which, server, client, Tunnel, Relay, Event, arrives, writable, on, queued, step, on_arrival,
  on_writable, later, on_client_message, on_server_message,
}
use chaonet.Tunnel.Link.{
  Linked, Relayed, wired_to, wired_to-on, wired_to-on_other, Flows-Sent, Flows-same,
}

abbrev pub StepOf : Relay → Event → Type 0
StepOf r e = (s : Relay × List (Which × Action)) × (step r e ≡ ok s) × Relayed r e s

-- A stream on which nothing was written, and one to which the bytes go.
pub stream_same :
    (which : Which) (actions : List (Which × Action)) (before after : List ℕ)
    → wired_to which actions ≡ []
    → after ≡ before
    → wired_to which actions ++ after ≡ before ++ []
stream_same which actions before after quiet e =
    ap (λ m. m ++ after) quiet ∙ e ∙ sym (append-nil before)

stream-Sent :
    {c c' : Connection} {message : List ℕ} {actions : List Action} (which : Which) (bytes : List ℕ)
    → Sent c message c' actions
    → message ≡ bytes
    → wired_to which (on which actions) ++ contents c'.output ≡ contents c.output ++ bytes
stream-Sent {c} {c'} {actions = actions} which bytes s e =
    ap (λ m. m ++ contents c'.output) (wired_to-on which actions)
    ∙ s.stream
    ∙ ap (λ m. contents c.output ++ m) e

module _ (r : Relay) (l : Linked r) where
  -- Bytes arrive on one connection and go out on the other.
  pub arrives_client :
      (x : ℕ) (xs : List ℕ) (w : Write)
      → r.tunnel.client_conn.input.writer_index + length (x ∷ xs) ≤ max_size
      → r.tunnel.server_conn.output.writer_index + length (x ∷ xs) ≤ max_size
      → StepOf r (arrives client (x ∷ xs) w)
  unfolding step on_arrival later on_client_message
  arrives_client x xs w room_in room_out =
      let (c1, read, a) = handle_read-Arrived l.client_end x xs room_in in
      let (s1, actions, sent, s) =
        send_buffer-Sent r.tunnel.server_conn c1.input w l.server_end.ready l.server_end.up (
          subst (λ m. r.tunnel.server_conn.output.writer_index + length m ≤ max_size) (sym a.got)
            room_out) in
      let c2 : Connection = record c1 { input = retrieve_all c1.input } in
      let t' : Tunnel = record r.tunnel { server_conn = s1; client_conn = c2 } in
      let r' : Relay = record { tunnel = t'; pending = r.pending ++ queued (on server actions) } in
      (
        (r', on server actions),
        rw (read, sent),
        record {
          linked = record {
            server_end = Sent-End l.server_end s;
            client_end = emptied c1 a.ready a.up a.front;
            has_client = l.has_client;
            has_context = l.has_context;
            to_server = Flows-Sent r.pending l.to_server s a.reading;
            to_client = Flows-same r.pending _ l.to_client a.output a.completes s.reading;
          };
          server_stream = stream-Sent server (x ∷ xs) s a.got;
          client_stream =
              stream_same client (on server actions) _ _
                (wired_to-on_other client server actions refl) (ap contents a.output);
        },
      )

  pub arrives_server :
      (x : ℕ) (xs : List ℕ) (w : Write)
      → r.tunnel.server_conn.input.writer_index + length (x ∷ xs) ≤ max_size
      → r.tunnel.client_conn.output.writer_index + length (x ∷ xs) ≤ max_size
      → StepOf r (arrives server (x ∷ xs) w)
  unfolding step on_arrival later on_server_message
  arrives_server x xs w room_in room_out =
      let (s1, read, a) = handle_read-Arrived l.server_end x xs room_in in
      let (c1, actions, sent, s) =
        send_buffer-Sent r.tunnel.client_conn s1.input w l.client_end.ready l.client_end.up (
          subst (λ m. r.tunnel.client_conn.output.writer_index + length m ≤ max_size) (sym a.got)
            room_out) in
      let s2 : Connection = record s1 { input = retrieve_all s1.input } in
      let t' : Tunnel = record r.tunnel { client_conn = c1; server_conn = s2 } in
      let r' : Relay = record { tunnel = t'; pending = r.pending ++ queued (on client actions) } in
      (
        (r', on client actions),
        rw (read, l.has_context, sent),
        record {
          linked = record {
            server_end = emptied s1 a.ready a.up a.front;
            client_end = Sent-End l.client_end s;
            has_client = l.has_client;
            has_context = l.has_context;
            to_server = Flows-same r.pending _ l.to_server a.output a.completes s.reading;
            to_client = Flows-Sent r.pending l.to_client s a.reading;
          };
          server_stream =
              stream_same server (on client actions) _ _
                (wired_to-on_other server client actions refl) (ap contents a.output);
          client_stream = stream-Sent client (x ∷ xs) s a.got;
        },
      )

  -- The poller reports that a connection is writable.
  pub writable_server :
      (w : Write)
      → Accepts w (length (contents r.tunnel.server_conn.output))
      → StepOf r (writable server w)
  unfolding step on_writable later
  writable_server w fits =
      let (s1, actions, wrote_, s) =
        handle_write-Sent r.tunnel.server_conn w l.server_end.ready fits in
      let t' : Tunnel = record r.tunnel { server_conn = s1 } in
      let r' : Relay = record { tunnel = t'; pending = r.pending ++ queued (on server actions) } in
      (
        (r', on server actions),
        rw wrote_,
        record {
          linked = record {
            server_end = Sent-End l.server_end s;
            client_end = l.client_end;
            has_client = l.has_client;
            has_context = l.has_context;
            to_server = Flows-Sent r.pending l.to_server s refl;
            to_client = Flows-same r.pending _ l.to_client refl refl s.reading;
          };
          server_stream = stream-Sent server [] s refl;
          client_stream =
              stream_same client (on server actions) _ _
                (wired_to-on_other client server actions refl) refl;
        },
      )

  pub writable_client :
      (w : Write)
      → Accepts w (length (contents r.tunnel.client_conn.output))
      → StepOf r (writable client w)
  unfolding step on_writable later
  writable_client w fits =
      let (c1, actions, wrote_, s) =
        handle_write-Sent r.tunnel.client_conn w l.client_end.ready fits in
      let t' : Tunnel = record r.tunnel { client_conn = c1 } in
      let r' : Relay = record { tunnel = t'; pending = r.pending ++ queued (on client actions) } in
      (
        (r', on client actions),
        rw wrote_,
        record {
          linked = record {
            server_end = l.server_end;
            client_end = Sent-End l.client_end s;
            has_client = l.has_client;
            has_context = l.has_context;
            to_server = Flows-same r.pending _ l.to_server refl refl s.reading;
            to_client = Flows-Sent r.pending l.to_client s refl;
          };
          server_stream =
              stream_same server (on client actions) _ _
                (wired_to-on_other server client actions refl) refl;
          client_stream = stream-Sent client [] s refl;
        },
      )
