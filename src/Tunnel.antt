-- ===== src/Tunnel.antt =====
-- examples/socks4a/tunnel.h: two connections joined end to end, of a server and of the client that was
-- started for it, with the message callback of examples/socks4a/tcprelay.cpp. Everything runs in one
-- loop's thread, and the tunnel lives as long as its callbacks (lock() succeeds).
pub mod Link
pub mod Calls
pub mod Relayed
pub mod Run
pub mod Begin
pub mod Teardown
mod Tests
use chaonet.Common.{
  ℕ, Bool, true, false, ◌||◌, List, [], ◌∷◌, ◌++◌, map, Result, ok, err, assert_failed,
  null_pointer, ◌>>=◌, ltb, if◌then◌else◌,
}
use chaonet.Buffer.{Buffer, received, readable_bytes}
use chaonet.Connection.{
  Connection, Action, Functor, Write, queue, write_complete, high_water, connected, same_state,
  send_buffer, start_read, stop_read, shutdown, handle_read, handle_write,
}

-- The enum ServerClient.
pub data Which : Type 0 where
  server client : Which

abbrev pub same_which : Which → Which → Bool
same_which server server = true
same_which client client = true
same_which _ _ = false

-- `client` is the connection that client_ made. The flags say whether clientConn_ points to it, whether
-- it is the context of serverConn_, and whether client_ has the tunnel's callbacks.
pub record Tunnel : Type 0 where
  pub server_conn : Connection
  pub client_conn : Connection
  pub has_client : Bool
  pub has_context : Bool
  pub hooked : Bool

-- What the tunnel did outside, and on which of its connections.
abbrev pub Outcome : Type 0
Outcome = Result (Tunnel × List (Which × Action))

abbrev pub on : Which → List Action → List (Which × Action)
on which actions = map (λ a. (which, a)) actions

abbrev pub high_water_mark : ℕ
high_water_mark = 1048576

-- setHighWaterMarkCallback and setWriteCompleteCallback.
abbrev pub set_high_water_mark_callback : Connection → ℕ → Connection
set_high_water_mark_callback c mark = record c { has_high_water = true; high_water_mark = mark }

abbrev pub set_write_complete_callback : Connection → Bool → Connection
set_write_complete_callback c is_set = record c { has_write_complete = is_set }

pub setup : Tunnel → Tunnel
setup t = record t {
  hooked = true;
  server_conn = set_high_water_mark_callback t.server_conn high_water_mark;
}

pub teardown : Tunnel → Outcome
teardown t = do
  (server', actions) ← shutdown true t.server_conn
  ok (
    record t { server_conn = server'; has_client = false; has_context = false; hooked = false },
    on server actions,
  )

-- What the server got before the client was connected.
send_waiting : Tunnel → Write → Outcome
send_waiting t w =
    if ltb 0 (readable_bytes t.server_conn.input)
    then (do
      (client', actions, rest) ← send_buffer true t.client_conn t.server_conn.input w
      ok (
        record t { client_conn = client'; server_conn = record t.server_conn { input = rest } },
        on client actions,
      ))
    else ok (t, [])

-- With the result of write(2), if the client's connection is written to.
pub on_client_connection : Tunnel → Write → Outcome
unfolding send_waiting teardown
on_client_connection t w =
    if same_state t.client_conn.state connected
    then (do
      (server', actions) ← start_read true t.server_conn
      (t', sent) ←
          send_waiting
            (record t {
              client_conn = set_high_water_mark_callback t.client_conn high_water_mark;
              server_conn = server';
              has_context = true;
              has_client = true;
            })
            w
      ok (t', on server actions ++ sent))
    else teardown t

-- serverConn_ is set by the constructor and never reset.
pub on_client_message : Tunnel → Write → Outcome
on_client_message t w = do
  (server', actions, rest) ← send_buffer true t.server_conn t.client_conn.input w
  ok (
    record t { server_conn = server'; client_conn = record t.client_conn { input = rest } },
    on server actions,
  )

-- onServerMessage of tcprelay.cpp.
pub on_server_message : Tunnel → Write → Outcome
on_server_message t w =
    if t.has_context
    then (do
      (client', actions, rest) ← send_buffer true t.client_conn t.server_conn.input w
      ok (
        record t { client_conn = client'; server_conn = record t.server_conn { input = rest } },
        on client actions,
      ))
    else ok (t, [])

pub on_high_water_mark : Which → Tunnel → Outcome
on_high_water_mark server t =
    if ltb 0 (readable_bytes t.server_conn.output)
    then (if t.has_client
        then (do
          (client', actions) ← stop_read true t.client_conn
          ok (
            record t {
              client_conn = client';
              server_conn = set_write_complete_callback t.server_conn true;
            },
            on client actions,
          ))
        else err null_pointer)
    else ok (t, [])
on_high_water_mark client t =
    if t.has_client
    then (if ltb 0 (readable_bytes t.client_conn.output)
        then (do
          (server', actions) ← stop_read true t.server_conn
          ok (
            record t {
              client_conn = set_write_complete_callback t.client_conn true;
              server_conn = server';
            },
            on server actions,
          ))
        else ok (t, []))
    else err null_pointer

pub on_write_complete : Which → Tunnel → Outcome
on_write_complete server t =
    if t.has_client
    then (do
      (client', actions) ← start_read true t.client_conn
      ok (
        record t {
          client_conn = client';
          server_conn = set_write_complete_callback t.server_conn false;
        },
        on client actions,
      ))
    else err null_pointer
on_write_complete client t =
    if t.has_client
    then (do
      (server', actions) ← start_read true t.server_conn
      ok (
        record t {
          client_conn = set_write_complete_callback t.client_conn false;
          server_conn = server';
        },
        on server actions,
      ))
    else err null_pointer

-- A tunnel and the callbacks that its connections gave to the loop.
pub record Relay : Type 0 where
  pub tunnel : Tunnel
  pub pending : List (Which × Functor)

-- The functors among the actions.
abbrev pub queued : List (Which × Action) → List (Which × Functor)
queued [] = []
queued ((which, queue f) ∷ actions) = (which, f) ∷ queued actions
queued (_ ∷ actions) = queued actions

-- Bytes arrive on a connection, the poller reports that one is writable, or the loop runs the first of
-- the pending functors.
pub data Event : Type 0 where
  arrives : Which → List ℕ → Write → Event
  writable : Which → Write → Event
  runs : Event

-- handleRead, and the message callback that it calls.
on_arrival : Which → Tunnel → List ℕ → Write → Outcome
unfolding on_client_message on_server_message
on_arrival client t bytes w = do
  (client', calls) ← handle_read t.client_conn (received bytes)
  on_client_message (record t { client_conn = client' }) w
on_arrival server t bytes w = do
  (server', calls) ← handle_read t.server_conn (received bytes)
  on_server_message (record t { server_conn = server' }) w

on_writable : Which → Tunnel → Write → Outcome
on_writable server t w = do
  (server', actions) ← handle_write t.server_conn w
  ok (record t { server_conn = server' }, on server actions)
on_writable client t w = do
  (client', actions) ← handle_write t.client_conn w
  ok (record t { client_conn = client' }, on client actions)

-- The calls of the tunnel, in the loop's thread, queue no other functor.
pub call : Tunnel → Which × Functor → Outcome
unfolding on_high_water_mark on_write_complete
call t (which, write_complete) = on_write_complete which t
call t (which, high_water total) = on_high_water_mark which t
call t (which, _) = ok (t, [])

-- What a call gives to the loop goes behind what is pending.
pub later : List (Which × Functor) → Outcome → Result (Relay × List (Which × Action))
later pending o = o >>= λ r. ok (record { tunnel = r.0; pending = pending ++ queued r.1 }, r.1)

unfoldable pub step : Relay → Event → Result (Relay × List (Which × Action))
unfolding on_arrival on_writable call later
step r (arrives which bytes w) = later r.pending (on_arrival which r.tunnel bytes w)
step r (writable which w) = later r.pending (on_writable which r.tunnel w)
step r runs = elim r.pending [ [] ↦ ok (r, []) | f ∷ rest ↦ later rest (call r.tunnel f) ]

pub run : Relay → List Event → Result (Relay × List (Which × Action))
unfolding step
run r [] = ok (r, [])
run r (e ∷ es) = step r e >>= λ s. run s.0 es >>= λ t. ok (t.0, s.1 ++ t.1)
