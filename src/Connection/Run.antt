-- ===== src/Connection/Run.antt =====
-- The life of a connection as a sequence of events in its loop's thread: calls of its user, functors
-- that were queued, and what the poller reports.
use chaonet.Common.{ℕ, Bool, true, List, [], ◌∷◌, ◌++◌, ok, ◌>>=◌, if◌then◌else◌, ◌&&◌, ◌||◌, leb}
use chaonet.Buffer.{Readv, received, retrieve, readable_bytes}
use chaonet.Channel.{is_none_event}
use chaonet.Connection.{
  Connection, State, connecting, connected, disconnecting, disconnected, same_state, Outcome, Write,
  accepted, send, send_in_loop, start_read, stop_read, start_read_in_loop, stop_read_in_loop,
  connection_established, connection_destroyed, shutdown, shutdown_in_loop, handle_close,
  handle_error, handle_read, handle_write,
}

-- The Boolean of a call says whether it is made in the loop's thread. `runs_…` is a queued functor that
-- the loop runs; `takes n` is a user's retrieve on the input buffer.
pub data Event : Type 0 where
  established destroyed hung_up errored : Event
  sends : Bool → List ℕ → Write → Event
  runs_send : List ℕ → Write → Event
  writable : Write → Event
  readable : Readv → Event
  takes : ℕ → Event
  shuts starts stops : Bool → Event
  runs_shutdown runs_start runs_stop : Event

unfoldable pub step : Connection → Event → Outcome
step c established = connection_established c
step c destroyed = connection_destroyed c
step c hung_up = handle_close c
step c errored = handle_error c
step c (sends in_loop message w) = send in_loop c message w
step c (runs_send message w) = send_in_loop c message w
step c (writable w) = handle_write c w
step c (readable r) = handle_read c r
step c (takes n) = retrieve c.input n >>= λ b. ok (record c { input = b }, [])
step c (shuts in_loop) = shutdown in_loop c
step c (starts in_loop) = start_read in_loop c
step c (stops in_loop) = stop_read in_loop c
step c runs_shutdown = shutdown_in_loop c
step c runs_start = start_read_in_loop c
step c runs_stop = stop_read_in_loop c

unfoldable pub run : Connection → List Event → Outcome
run c [] = ok (c, [])
run c (e ∷ es) = step c e >>= λ r. run r.0 es >>= λ s. ok (s.0, r.1 ++ s.1)

-- The bytes that an event hands to sendInLoop.
abbrev pub handed : Connection → Event → List ℕ
handed c (sends true message w) = if same_state c.state connected then message else []
handed c (runs_send message w) = message
handed c _ = []

-- The bytes that an event adds to the input buffer.
abbrev pub arrived : Event → List ℕ
arrived (readable (received bytes)) = bytes
arrived _ = []

-- States only ever move on.
abbrev pub rank : State → ℕ
rank connecting = 0
rank connected = 1
rank disconnecting = 2
rank disconnected = 3

abbrev pub may_close : Connection → Bool
may_close c = (same_state c.state connected || same_state c.state disconnecting) && c.has_close

-- What the code takes for granted of an event: the assertions of the handlers, a close callback, and
-- that neither write(2) nor the user takes more than there is.
abbrev pub allowed : Connection → Event → Bool
allowed c established = same_state c.state connecting
allowed c destroyed = same_state c.state connected || is_none_event c.channel
allowed c hung_up = may_close c
allowed c (readable (received [])) = may_close c
allowed c (writable (accepted n)) = leb n (readable_bytes c.output)
allowed c (takes n) = leb n (readable_bytes c.input)
allowed c _ = true
