-- ===== src/Connection.antt =====
-- chaonet/src/TcpConnection.cpp and TcpConnection.h: one TCP connection on its loop. A handler returns
-- the new connection and, in order, what it did outside of it. The results of system calls are
-- arguments; the effects of user callbacks are later events.
pub mod Run
pub mod Inv
pub mod Sending
pub mod Stream
pub mod Steps
pub mod Bytes
pub mod Invariant
pub mod Lifecycle
pub mod Ends
mod Tests
use chaonet.Common.{
  ℕ, suc, ◌+◌, Bool, true, false, not, ◌&&◌, ◌||◌, List, [], ◌∷◌, ◌++◌, Result, ok, err,
  bad_function_call, ◌>>=◌, ◌>>◌, assert, ltb, leb, ◌==◌, if◌then◌else◌, length, take, drop,
  add_size, sub_size,
}
use chaonet.Buffer.{
  Buffer, Readv, failed, received, readable_bytes, contents, append, retrieve, read_fd,
  retrieve_as_string,
}
use chaonet.Buffer
use chaonet.Channel.{
  Channel, enable_reading, disable_reading, enable_writing, disable_writing, disable_all,
  is_writing, is_reading, is_none_event,
}

pub data State : Type 0 where
  connecting connected disconnecting disconnected : State

abbrev pub same_state : State → State → Bool
same_state connecting connecting = true
same_state connected connected = true
same_state disconnecting disconnecting = true
same_state disconnected disconnected = true
same_state _ _ = false

-- The flags say which callbacks are set; the connection and message callbacks always are.
pub record Connection : Type 0 where
  pub state : State
  pub reading : Bool
  pub channel : Channel
  pub input : Buffer
  pub output : Buffer
  pub high_water_mark : ℕ
  pub has_write_complete : Bool
  pub has_high_water : Bool
  pub has_close : Bool

-- What a connection hands to its loop to run later.
pub data Functor : Type 0 where
  sends : List ℕ → Functor
  starts_read stops_read shuts_down write_complete : Functor
  high_water : ℕ → Functor

-- `wrote bytes`: the socket accepted them. `interest events`: Channel::update with that mask.
pub data Action : Type 0 where
  wrote : List ℕ → Action
  interest : ℕ → Action
  queue : Functor → Action
  calls_connection calls_message calls_close : Action
  shuts_write removes logs_error : Action

abbrev pub Outcome : Type 0
Outcome = Result (Connection × List Action)

-- What write(2) returns: -1 with EWOULDBLOCK or another errno, or a count.
pub data Write : Type 0 where
  would_block write_error : Write
  accepted : ℕ → Write

-- The callbacks of the channel are set; the descriptor is not read yet.
abbrev pub create : Channel → Buffer → Buffer → Connection
create channel input output = record {
  state = connecting;
  reading = true;
  channel = record channel {
    has_read = true;
    has_write = true;
    has_error = true;
    has_close = true;
  };
  input = input;
  output = output;
  high_water_mark = 67108864;
  has_write_complete = false;
  has_high_water = false;
  has_close = false;
}

pub when : Bool → Action → List Action
when true a = a ∷ []
when false a = []

-- Run at once in the loop's thread, queued otherwise (EventLoop::runInLoop).
pub run_in_loop : Bool → Connection → Functor → Outcome → Outcome
run_in_loop true c f now = now
run_in_loop false c f now = ok (c, queue f ∷ [])

-- The direct write of sendInLoop: how much was written, and what happened.
direct_write : Connection → List ℕ → Write → ℕ × List Action
unfolding when
direct_write c message would_block = (0, [])
direct_write c message write_error = (0, logs_error ∷ [])
direct_write c message (accepted n) = (
  n,
  wrote (take n message)
      ∷ (if ltb n (length message) then [] else when c.has_write_complete (queue write_complete)),
)

abbrev can_write_directly : Connection → Bool
can_write_directly c = not (is_writing c.channel) && readable_bytes c.output == 0

-- The high-water callback is queued when the output crosses the mark.
high_water_call : Connection → ℕ → ℕ → List Action
unfolding when
high_water_call c old total =
    when (leb c.high_water_mark total && ltb old c.high_water_mark && c.has_high_water)
      (queue (high_water total))

watch_writing : Connection → Connection × List Action
watch_writing c =
    let channel = enable_writing c.channel in
    if is_writing c.channel
    then (c, [])
    else (record c { channel = channel }, interest channel.events ∷ [])

-- The rest of sendInLoop: what was not written is kept in the output buffer.
pub keep_rest : Connection → List ℕ → ℕ → Outcome
unfolding high_water_call watch_writing
keep_rest c message nwrote = do
  let old = readable_bytes c.output
  let total = add_size old (sub_size (length message) nwrote)
  out ← append c.output (drop nwrote message)
  let (c', actions) = watch_writing (record c { output = out })
  ok (c', high_water_call c old total ++ actions)

abbrev also : List Action → Outcome → Outcome
also before o = o >>= λ r. ok (r.0, before ++ r.1)

pub send_in_loop : Connection → List ℕ → Write → Outcome
unfolding direct_write keep_rest
send_in_loop c message w =
    let (nwrote, actions) = (if can_write_directly c then direct_write c message w else (0, [])) in
    if ltb nwrote (length message)
    then also actions (keep_rest c message nwrote)
    else ok (c, actions)

pub send : Bool → Connection → List ℕ → Write → Outcome
unfolding send_in_loop run_in_loop
send in_loop c message w =
    if same_state c.state connected
    then run_in_loop in_loop c (sends message) (send_in_loop c message w)
    else ok (c, [])

-- send(Buffer *): the buffer is emptied only if the connection is up.
pub send_buffer : Bool → Connection → Buffer → Write → Result (Connection × List Action × Buffer)
unfolding send_in_loop run_in_loop
send_buffer in_loop c buf w =
    if same_state c.state connected
    then (do
      let (message, rest) = retrieve_as_string buf
      (c', actions) ← run_in_loop in_loop c (sends message) (send_in_loop c message w)
      ok (c', actions, rest))
    else ok (c, [], buf)

pub start_read_in_loop : Connection → Outcome
start_read_in_loop c =
    let channel = enable_reading c.channel in
    if not c.reading || not (is_reading c.channel)
    then ok (record c { channel = channel; reading = true }, interest channel.events ∷ [])
    else ok (c, [])

pub stop_read_in_loop : Connection → Outcome
stop_read_in_loop c =
    let channel = disable_reading c.channel in
    if c.reading || is_reading c.channel
    then ok (record c { channel = channel; reading = false }, interest channel.events ∷ [])
    else ok (c, [])

pub start_read : Bool → Connection → Outcome
unfolding start_read_in_loop run_in_loop
start_read in_loop c = run_in_loop in_loop c starts_read (start_read_in_loop c)

pub stop_read : Bool → Connection → Outcome
unfolding stop_read_in_loop run_in_loop
stop_read in_loop c = run_in_loop in_loop c stops_read (stop_read_in_loop c)

pub connection_established : Connection → Outcome
connection_established c = do
  assert (same_state c.state connecting)
  let channel = enable_reading c.channel
  ok (
    record c { state = connected; channel = channel },
    interest channel.events ∷ calls_connection ∷ [],
  )

-- The poller asserts that the interest of a channel is empty when it is removed
-- (EPoller::removeChannel).
remove_from_loop : Connection → List Action → Outcome
remove_from_loop c actions = do assert (is_none_event c.channel); ok (c, actions ++ removes ∷ [])

pub connection_destroyed : Connection → Outcome
unfolding remove_from_loop
connection_destroyed c =
    if same_state c.state connected
    then remove_from_loop (record c { state = disconnected; channel = disable_all c.channel })
        (interest 0 ∷ calls_connection ∷ [])
    else remove_from_loop c []

pub shutdown_in_loop : Connection → Outcome
unfolding when
shutdown_in_loop c = ok (c, when (not (is_writing c.channel)) shuts_write)

pub shutdown : Bool → Connection → Outcome
unfolding shutdown_in_loop run_in_loop
shutdown in_loop c =
    let c' = record c { state = disconnecting } in
    if same_state c.state connected
    then run_in_loop in_loop c' shuts_down (shutdown_in_loop c')
    else ok (c, [])

-- An unset closeCallback_ throws.
pub handle_close : Connection → Outcome
handle_close c = do
  assert (same_state c.state connected || same_state c.state disconnecting)
  let c' = record c { state = disconnected; channel = disable_all c.channel }
  (if c.has_close
      then ok (c', interest 0 ∷ calls_connection ∷ calls_close ∷ [])
      else err bad_function_call)

pub handle_error : Connection → Outcome
handle_error c = ok (c, logs_error ∷ [])

pub handle_read : Connection → Readv → Outcome
unfolding handle_close handle_error
handle_read c (failed errno) = handle_error c
handle_read c (received []) = handle_close c
handle_read c (received (x ∷ xs)) = do
  input ← read_fd c.input (received (x ∷ xs))
  ok (record c { input = input }, calls_message ∷ [])

-- The end of handleWrite, once the output buffer is empty.
drained : Connection → Outcome
unfolding when shutdown_in_loop
drained c =
    let channel = disable_writing c.channel in
    let c' = record c { channel = channel } in
    let actions = interest channel.events ∷ when c.has_write_complete (queue write_complete) in
    if same_state c.state disconnecting
    then also actions (shutdown_in_loop c')
    else ok (c', actions)

write_some : Connection → ℕ → Outcome
unfolding drained
write_some c n = do
  out ← retrieve c.output n
  let sent = wrote (take n (contents c.output)) ∷ []
  let c' = record c { output = out }
  (if readable_bytes out == 0 then also sent (drained c') else ok (c', sent))

pub handle_write : Connection → Write → Outcome
unfolding write_some
handle_write c would_block = ok (c, when (is_writing c.channel) logs_error)
handle_write c write_error = ok (c, when (is_writing c.channel) logs_error)
handle_write c (accepted n) =
    if is_writing c.channel
    then (if ltb 0 n then write_some c n else ok (c, logs_error ∷ []))
    else ok (c, [])
