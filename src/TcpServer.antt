-- ===== src/TcpServer.antt =====
-- chaonet/src/TcpServer.cpp and Acceptor.cpp, chaonet/include/TcpServer.h and Acceptor.h: the
-- connections of a server. A connection's name is its number; what a loop is given to run is a task, and
-- what happens outside of the server is a list.
pub mod Accounts
mod Tests
use chaonet.Common.{
  ℕ, ◌+◌, Bool, true, false, not, List, [], ◌∷◌, ◌++◌, Option, none, some, Result, ok, err,
  signed_overflow, ltb, ◌>>=◌, ◌>>◌, assert, if◌then◌else◌, update, is_some,
}
use chaonet.Channel.{Channel, enable_reading}
use chaonet.Pool.{Pool, get_next_loop}
use chaonet.Pool

-- A TcpConnection: the number in its name, its descriptor and its loop.
pub record Peer : Type 0 where
  pub conn_id : ℕ
  pub sockfd : ℕ
  pub io_loop : ℕ

pub record Acceptor : Type 0 where
  pub listening : Bool
  pub channel : Channel
  pub has_callback : Bool

pub record Server : Type 0 where
  pub pool : Pool
  pub acceptor : Acceptor
  pub started : Bool
  pub next_conn_id : ℕ
  pub connections : ℕ → Option Peer

pub data Task : Type 0 where
  listens : Task
  establishes destroys removes : Peer → Task

-- `runs_in` is runInLoop and `queues_in` is queueInLoop of that loop; `watches` tells the poller.
pub data Effect : Type 0 where
  runs_in queues_in : ℕ → Task → Effect
  listens_on : Effect
  watches closes : ℕ → Effect

abbrev pub Outcome : Type 0
Outcome = Result (Server × List Effect)

-- The constructor sets newConnectionCallback_.
abbrev pub new_server : Pool → Channel → Server
new_server pool channel = record {
  pool = pool;
  acceptor = record {
    listening = false;
    channel = record channel { has_read = true };
    has_callback = true;
  };
  started = false;
  next_conn_id = 1;
  connections = λ id. none;
}

start_pool : Server → List ℕ → Result Server
start_pool s made =
    if s.started
    then ok s
    else (Pool.start s.pool made >>= λ p. ok (record s { pool = p; started = true }))

-- `made` are the loops of the pool's threads.
pub start : Server → List ℕ → Outcome
unfolding start_pool
start s made = do
  s' ← start_pool s made
  ok (s', if s'.acceptor.listening then [] else runs_in s'.pool.base_loop listens ∷ [])

-- Acceptor::listen
pub listen : Server → Server × List Effect
listen s =
    let channel = enable_reading s.acceptor.channel in
    (
      record s { acceptor = record s.acceptor { listening = true; channel = channel } },
      listens_on ∷ watches channel.events ∷ [],
    )

abbrev pub peer_on : Server → ℕ → ℕ → Peer
peer_on s sockfd io_loop = record { conn_id = s.next_conn_id; sockfd = sockfd; io_loop = io_loop }

-- The largest int.
abbrev pub int_max : ℕ
int_max = 2147483647

-- ++nextConnId_
pub next_number : ℕ → Result ℕ
next_number n = if ltb n int_max then ok (n + 1) else err signed_overflow

-- newConnection, once its loop and the next number are known.
abbrev pub admit : Server → ℕ → ℕ → ℕ → Pool → Server × List Effect
admit s sockfd next io_loop pool =
    let conn = peer_on s sockfd io_loop in
    (
      record s {
        pool = pool;
        next_conn_id = next;
        connections = update s.connections s.next_conn_id (some conn);
      },
      runs_in io_loop (establishes conn) ∷ [],
    )

pub new_connection : Server → ℕ → Outcome
unfolding next_number
new_connection s sockfd = do
  next ← next_number s.next_conn_id
  (io_loop, pool) ← get_next_loop s.pool
  ok (admit s sockfd next io_loop pool)

-- Acceptor::handleRead; the result of accept(2), or `none` for -1.
pub handle_read : Server → Option ℕ → Outcome
unfolding new_connection
handle_read s none = ok (s, [])
handle_read s (some connfd) =
    if s.acceptor.has_callback then new_connection s connfd else ok (s, closes connfd ∷ [])

-- The close callback of a connection, in the connection's loop.
pub remove_connection : Server → Peer → List Effect
remove_connection s conn = runs_in s.pool.base_loop (removes conn) ∷ []

pub remove_connection_in_loop : Server → Peer → Outcome
remove_connection_in_loop s conn =
    assert (is_some (s.connections conn.conn_id))
    >> ok (
      record s { connections = update s.connections conn.conn_id none },
      queues_in conn.io_loop (destroys conn) ∷ [],
    )

-- What the loop of the server does: it accepts, or runs a removal.
pub data Event : Type 0 where
  accepts : Option ℕ → Event
  runs_removal : Peer → Event

pub step : Server → Event → Outcome
unfolding handle_read remove_connection_in_loop
step s (accepts fd) = handle_read s fd
step s (runs_removal conn) = remove_connection_in_loop s conn

pub run : Server → List Event → Outcome
unfolding step
run s [] = ok (s, [])
run s (e ∷ es) = step s e >>= λ r. run r.0 es >>= λ t. ok (t.0, r.1 ++ t.1)
