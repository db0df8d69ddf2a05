-- ===== src/Tunnel/Tests.antt =====
-- A tunnel between two connections with buffers of 16 bytes and a high-water mark of 2.
use chaonet.Common.{
  ◌≡◌, refl, inr, Bool, true, false, List, [], ◌∷◌, Result, ok, err, null_pointer, arith, replicate,
}
use chaonet.Buffer.{Buffer}
use chaonet.Channel.{new_channel}
use chaonet.Connection.{Connection, Action, connected, accepted, would_block, handle_write}
use chaonet.Connection
use chaonet.Connection.Inv.{has_output, tells_complete}
use chaonet.Connection.Ends.{End}
use chaonet.Tunnel.{
  Which, server, client, Tunnel, Relay, Event, arrives, writable, runs, step, run,
  on_client_connection, teardown, on_write_complete,
}
use chaonet.Tunnel.Link.{Linked, reads_on, has_more}
use chaonet.Tunnel.Run.{Carried, run-Carried, in_value, all_allowed}
use chaonet.Tunnel.Begin.{Begun, on_client_connection-Begun}
use chaonet.Tunnel.Teardown.{teardown_strands}

abbrev empty : Buffer
empty = record { storage = replicate 16 0; reader_index = 8; writer_index = 8 }

abbrev three_bytes : Buffer
three_bytes = record { storage = replicate 16 7; reader_index = 8; writer_index = 11 }

-- Up, reading, with nothing to send.
abbrev idle : Connection
idle = record (Connection.create (record (new_channel 7) { events = 3 }) empty empty) {
  state = connected;
  has_high_water = true;
  high_water_mark = 2;
}

idle-End : End idle
idle-End = record {
  ready = record {
    input_valid = omega arith;
    output_valid = omega arith;
    reads = true;
    writes = false;
    watches = refl;
    pending = inr refl;
  };
  up = refl;
  front = omega arith;
  taken = refl;
}

abbrev quiet : Tunnel
quiet = record {
  server_conn = idle;
  client_conn = idle;
  has_client = true;
  has_context = true;
  hooked = true;
}

abbrev start : Relay
start = record { tunnel = quiet; pending = [] }

start-Linked : Linked start
start-Linked = record {
  server_end = idle-End;
  client_end = idle-End;
  has_client = refl;
  has_context = refl;
  to_server = reads_on refl;
  to_client = reads_on refl;
}

-- The client sends three bytes, of which the server's socket takes none: the loop calls the high-water
-- callback.
abbrev stop_and_wait : List Event
stop_and_wait =
    arrives client (97 ∷ 98 ∷ 99 ∷ []) would_block ∷ runs ∷ writable server would_block ∷ runs ∷ []

always :
    (o : Result (Relay × List (Which × Action))) (test : Relay → Bool)
    → ((r : Relay) → test r ≡ true)
    → in_value o test ≡ true
always (ok s) test h = h s.0
always (err f) test h = refl

stop_and_wait-allowed : all_allowed start stop_and_wait ≡ true
stop_and_wait-allowed =
    always (step start (arrives client (97 ∷ 98 ∷ 99 ∷ []) would_block)) _ (λ r1.
      always (step r1 runs) _ (λ r2.
        always (step r2 (writable server would_block)) _
          (λ r3. always (step r3 runs) _ (λ r4. refl))))

-- The server's connection has output, and the client is not read.
abbrev busy : Connection
busy = record idle {
  channel = record (new_channel 7) { events = 7 };
  output = three_bytes;
  has_write_complete = true;
}

busy-End : End busy
busy-End = record {
  ready = record {
    input_valid = omega arith;
    output_valid = omega arith;
    reads = true;
    writes = true;
    watches = refl;
    pending = inr refl;
  };
  up = refl;
  front = omega arith;
  taken = refl;
}

abbrev held : Relay
held = record { tunnel = record quiet { server_conn = busy }; pending = [] }

held-Linked : Linked held
held-Linked = record {
  server_end = busy-End;
  client_end = idle-End;
  has_client = refl;
  has_context = refl;
  to_server = has_more refl refl;
  to_client = reads_on refl;
}

run-Carried_example :
    (s : Relay × List (Which × Action)) × (run start stop_and_wait ≡ ok s)
    × Carried start stop_and_wait s
run-Carried_example = run-Carried start stop_and_wait start-Linked stop_and_wait-allowed

on_client_connection-Begun_example :
    (s : Tunnel × List (Which × Action)) × (on_client_connection quiet (accepted 0) ≡ ok s)
    × Begun quiet s
on_client_connection-Begun_example = on_client_connection-Begun quiet (accepted 0) (record {
  server_ready = idle-End.ready;
  server_up = refl;
  front = omega arith;
  client_end = idle-End;
  client_reads = refl;
  room = omega arith;
})

teardown_strands_example :
    (t : Tunnel) × (done : List (Which × Action)) × (teardown held.tunnel ≡ ok (t, done))
    × ((c : Connection) × (actions : List Action) × (handle_write t.server_conn (accepted 3)
          ≡ ok (c, actions))
        × (has_output c ≡ false → tells_complete actions ≡ true)
        × (on_write_complete server (record t { server_conn = c }) ≡ err null_pointer))
teardown_strands_example = teardown_strands held (accepted 3) held-Linked refl refl (omega arith)
