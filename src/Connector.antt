-- ===== src/Connector.antt =====
-- chaonet/src/Connector.cpp and chaonet/include/Connector.h: the client's connection attempts. The new
-- descriptor, errno and SO_ERROR are arguments; what happens outside of the connector is a list.
pub mod Run
pub mod Attempts
pub mod Life
pub mod Opening
pub mod Sequence
pub mod Backoff
pub mod Stopped
mod Tests
use chaonet.Common.{
  ℕ, ◌+◌, ◌*◌, min, Bool, true, false, not, ◌&&◌, ◌||◌, List, [], ◌∷◌, ◌++◌, Option, none, some,
  Result, ok, err, assert_failed, null_pointer, ◌>>=◌, ◌>>◌, assert, ◌==◌, if◌then◌else◌, is_some,
}
use chaonet.Channel.{Channel, new_channel, enable_writing}

pub data States : Type 0 where
  disconnected connecting connected : States

abbrev pub same_states : States → States → Bool
same_states disconnected disconnected = true
same_states connecting connecting = true
same_states connected connected = true
same_states _ _ = false

abbrev pub max_retry_delay_ms : ℕ
max_retry_delay_ms = 30000

abbrev pub init_retry_delay_ms : ℕ
init_retry_delay_ms = 500

pub data Functor : Type 0 where
  starts_in_loop resets_channel : Functor

-- `queued` are the functors that the connector gave to its loop and that did not run yet.
pub record Connector : Type 0 where
  pub connect : Bool
  pub state : States
  pub channel : Option Channel
  pub retry_delay_ms : ℕ
  pub queued : List Functor

-- `opens` and `closes` a descriptor, `hands_over` to newConnectionCallback_, `starts_timer` with a delay
-- in milliseconds.
pub data Effect : Type 0 where
  opens closes hands_over starts_timer : ℕ → Effect
  watches unwatches cancels_timer : Effect

abbrev pub Outcome : Type 0
Outcome = Result (Connector × List Effect)

abbrev pub new_connector : Connector
new_connector = record {
  connect = false;
  state = disconnected;
  channel = none;
  retry_delay_ms = init_retry_delay_ms;
  queued = [];
}

pub retry : Connector → ℕ → Connector × List Effect
retry c sockfd =
    let c' = record c { state = disconnected } in
    if c.connect
    then (
      record c' { retry_delay_ms = min (c.retry_delay_ms * 2) max_retry_delay_ms },
      closes sockfd ∷ starts_timer c.retry_delay_ms ∷ [],
    )
    else (c', closes sockfd ∷ [])

connecting_on : Connector → ℕ → Outcome
connecting_on c sockfd = do
  assert (not (is_some c.channel))
  let channel = enable_writing (record (new_channel sockfd) { has_write = true; has_error = true })
  ok (record c { state = connecting; channel = some channel }, watches ∷ [])

-- What connect(2) came to, by errno.
pub data Verdict : Type 0 where
  in_progress try_again hopeless : Verdict

-- 0, EINPROGRESS, EINTR and EISCONN; then EAGAIN, EADDRINUSE, EADDRNOTAVAIL, ECONNABORTED and ENETUNREACH.
verdict : ℕ → Verdict
verdict errno =
    if errno == 0 || errno == 115 || errno == 4 || errno == 106
    then in_progress
    else if errno == 11 || errno == 98 || errno == 99 || errno == 103 || errno == 101
    then try_again
    else hopeless

also : List Effect → Outcome → Outcome
also before o = o >>= λ r. ok (r.0, before ++ r.1)

pub go_on : Connector → ℕ → Verdict → Outcome
unfolding connecting_on retry
go_on c sockfd in_progress = connecting_on c sockfd
go_on c sockfd try_again = ok (retry c sockfd)
go_on c sockfd hopeless = ok (c, closes sockfd ∷ [])

-- `sockfd` is the new descriptor.
pub connect_now : Connector → ℕ → ℕ → Outcome
unfolding verdict go_on also
connect_now c sockfd errno = also (opens sockfd ∷ []) (go_on c sockfd (verdict errno))

pub start_in_loop : Connector → ℕ → ℕ → Outcome
unfolding connect_now
start_in_loop c sockfd errno = do
  assert (same_states c.state disconnected)
  (if c.connect then connect_now c sockfd errno else ok (c, []))

pub start : Bool → Connector → ℕ → ℕ → Outcome
unfolding start_in_loop
start true c sockfd errno = start_in_loop (record c { connect = true }) sockfd errno
start false c sockfd errno =
    ok (record c { connect = true; queued = c.queued ++ starts_in_loop ∷ [] }, [])

pub restart : Connector → ℕ → ℕ → Outcome
unfolding start_in_loop
restart c sockfd errno =
    start_in_loop
      (record c { state = disconnected; retry_delay_ms = init_retry_delay_ms; connect = true })
      sockfd errno

pub stop : Connector → Outcome
stop c = ok (record c { connect = false }, cancels_timer ∷ [])

-- The channel is taken from the poller at once and destroyed later.
pub remove_and_reset_channel : Connector → Result (Connector × ℕ)
remove_and_reset_channel c = elim c.channel [
  | none ↦ err null_pointer
  | some channel ↦ ok (record c { queued = c.queued ++ resets_channel ∷ [] }, channel.fd)
]

pub reset_channel : Connector → Connector
reset_channel c = record c { channel = none }

-- `error` is SO_ERROR, `self` the answer of isSelfConnect.
pub handle_write : Connector → ℕ → Bool → Outcome
unfolding remove_and_reset_channel retry
handle_write c error self =
    if same_states c.state connecting
    then (do
      (c', sockfd) ← remove_and_reset_channel c
      ok (
          if not (error == 0) || self
          then (let (d, effects) = retry c' sockfd in (d, unwatches ∷ effects))
          else (
            record c' { state = connected },
            unwatches ∷ (if c.connect then hands_over sockfd else closes sockfd) ∷ [],
          )))
    else (do assert (same_states c.state disconnected); ok (c, []))

pub handle_error : Connector → Outcome
unfolding remove_and_reset_channel retry
handle_error c = do
  assert (same_states c.state connecting)
  (c', sockfd) ← remove_and_reset_channel c
  let (d, effects) = retry c' sockfd
  ok (d, unwatches ∷ effects)
