-- ===== src/Connection/Tests.antt =====
-- Connections on descriptor 7 with buffers of 16 bytes.
use chaonet.Common.{
  ℕ, ◌≡◌, refl, inl, inr, true, false, List, [], ◌∷◌, ok, err, assert_failed, arith, replicate,
}
use chaonet.Buffer.{Buffer, received}
use chaonet.Channel.{new_channel}
use chaonet.Connection.{
  Connection, create, connected, disconnecting, disconnected, Action, accepted, write_error,
  send_in_loop, handle_write, connection_destroyed,
}
use chaonet.Connection.Inv.{Ready}
use chaonet.Connection.Sending.{Sent, send_in_loop-Sent}
use chaonet.Connection.Stream.{handle_write-Sent}
use chaonet.Connection.Run.{Event, established, sends, readable, destroyed}
use chaonet.Connection.Lifecycle.{send_after_close}

abbrev empty : Buffer
empty = record { storage = replicate 16 0; reader_index = 8; writer_index = 8 }

abbrev two_bytes : Buffer
two_bytes = record { storage = replicate 16 5; reader_index = 8; writer_index = 10 }

abbrev new_one : Connection
new_one = record (create (new_channel 7) empty empty) { has_close = true }

-- Up, reading, with nothing to send.
abbrev idle : Connection
idle = record new_one { state = connected; channel = record (new_channel 7) { events = 3 } }

idle-Ready : Ready idle
idle-Ready = record {
  input_valid = omega arith;
  output_valid = omega arith;
  reads = true;
  writes = false;
  watches = refl;
  pending = inr refl;
}

-- Two bytes are left to send.
abbrev busy : Connection
busy = record idle {
  state = disconnecting;
  output = two_bytes;
  channel = record (new_channel 7) { events = 7 };
}

busy-Ready : Ready busy
busy-Ready = record {
  input_valid = omega arith;
  output_valid = omega arith;
  reads = true;
  writes = true;
  watches = refl;
  pending = inr refl;
}

abbrev closed : Connection
closed = record idle { state = disconnected; channel = new_channel 7 }

closed-Ready : Ready closed
closed-Ready = record {
  input_valid = omega arith;
  output_valid = omega arith;
  reads = false;
  writes = false;
  watches = refl;
  pending = inl refl;
}

abbrev message : List ℕ
message = 1 ∷ 2 ∷ 3 ∷ []

abbrev one_exchange : List Event
one_exchange =
    established ∷ sends true message (accepted 3) ∷ readable (received []) ∷ destroyed ∷ []

send_in_loop-Sent_example :
    (c' : Connection) × (actions : List Action) × (send_in_loop idle message (accepted 1)
      ≡ ok (c', actions))
    × Sent idle message c' actions
send_in_loop-Sent_example = send_in_loop-Sent idle message (accepted 1) idle-Ready (omega arith)

handle_write-Sent_example :
    (c' : Connection) × (actions : List Action) × (handle_write busy (accepted 2)
      ≡ ok (c', actions))
    × Sent busy [] c' actions
handle_write-Sent_example = handle_write-Sent busy (accepted 2) busy-Ready (omega arith)

send_after_close_example :
    (c' : Connection) × (actions : List Action) × (send_in_loop closed message write_error
      ≡ ok (c', actions))
    × (connection_destroyed c' ≡ err assert_failed)
send_after_close_example = send_after_close closed 1 (2 ∷ 3 ∷ []) closed-Ready refl (omega arith)
