-- ===== src/TcpClient.antt =====
-- chaonet/src/TcpClient.cpp and chaonet/include/TcpClient.h: the connection of a client and its
-- connector. A connection is named by its descriptor, and all connections are on the client's loop.
pub mod Reconnect
mod Tests
use chaonet.Common.{
  ℕ, ◌+◌, Bool, true, false, ◌&&◌, List, [], ◌∷◌, ◌++◌, map, Option, none, some, Result, ok, ◌>>=◌,
  ◌>>◌, assert, if◌then◌else◌, holds_key,
}
use chaonet.Connector.{Connector}
use chaonet.Connector

pub record Client : Type 0 where
  pub connector : Connector
  pub retry : Bool
  pub connect : Bool
  pub next_conn_id : ℕ
  pub connection : Option ℕ

-- `queues_destroyed` is queueInLoop of connectionDestroyed, `sets_close` the new close callback that the
-- destructor sets, and `keeps_connector` its timer of one second.
pub data Effect : Type 0 where
  did : Connector.Effect → Effect
  establishes shuts queues_destroyed sets_close : ℕ → Effect
  keeps_connector : Effect

abbrev pub Outcome : Type 0
Outcome = Result (Client × List Effect)

abbrev pub new_client : Connector → Client
new_client connector = record {
  connector = connector;
  retry = false;
  connect = true;
  next_conn_id = 1;
  connection = none;
}

-- What a call of the connector makes of the client.
abbrev pub with_connector : Client → Connector.Outcome → Outcome
with_connector c o = o >>= λ r. ok (record c { connector = r.0 }, map did r.1)

pub enable_retry : Client → Client
enable_retry c = record c { retry = true }

-- With the new descriptor and errno of connect(2), if the connector connects.
pub connect : Bool → Client → ℕ → ℕ → Outcome
connect in_loop c fd errno =
    with_connector (record c { connect = true }) (Connector.start in_loop c.connector fd errno)

pub disconnect : Client → Client × List Effect
disconnect c =
    (record c { connect = false }, elim c.connection [ none ↦ [] | some conn ↦ shuts conn ∷ [] ])

pub stop : Client → Outcome
stop c = with_connector (record c { connect = false }) (Connector.stop c.connector)

pub new_connection : Client → ℕ → Client × List Effect
new_connection c sockfd = (record c { connection = some sockfd }, establishes sockfd ∷ [])

abbrev pub also : Effect → Outcome → Outcome
also before o = o >>= λ r. ok (r.0, before ∷ r.1)

-- The close callback of a connection; `fd` and `errno` are for the connector's new attempt.
pub remove_connection : Client → ℕ → ℕ → ℕ → Outcome
remove_connection c conn fd errno =
    let c' = record c { connection = none } in
    assert (holds_key c.connection conn)
    >> (if c.retry && c.connect
        then also (queues_destroyed conn)
            (with_connector c' (Connector.restart c.connector fd errno))
        else ok (c', queues_destroyed conn ∷ []))

-- The destructor.
pub destroy : Client → Result (List Effect)
destroy c = elim c.connection [
  | some conn ↦ ok (sets_close conn ∷ [])
  | none ↦ Connector.stop c.connector >>= λ r. ok (map did r.1 ++ keeps_connector ∷ [])
]
