-- ===== src/TcpClient/Reconnect.antt =====
-- When the connection of a client is closed.
use chaonet.Common.{
  subst, ℕ, ◌≡◌, inl, inr, true, false, not, ◌&&◌, List, [], ◌∷◌, map, none, some, ok,
  assert_passes, if◌then◌else◌, if_true, if_false, Bool-cases, holds_key, eq→==, refl, sym, ap, ◌∙◌,
  is_some,
}
use chaonet.Connector.{Connector, opens, connecting, same_states, init_retry_delay_ms}
use chaonet.Connector
use chaonet.Connector.Attempts.{Ready, Attempted}
use chaonet.Connector.Life.{restart-allowed}
use chaonet.Connector.Opening.{Opens, restart-Opens}
use chaonet.TcpClient.{
  Client, did, queues_destroyed, Outcome, with_connector, also, remove_connection,
}

-- What removeConnection comes to.
pub data Removed (c : Client) (conn fd : ℕ) : Outcome → Type 0 where
  reconnects :
      (r : Connector × List Connector.Effect)
      → (c.retry && c.connect) ≡ true
      → Attempted c.connector init_retry_delay_ms r
      → Opens fd r.1
      → Removed c conn fd (
          ok (record c { connection = none; connector = r.0 }, queues_destroyed conn ∷ map did r.1))
  rests :
      (c.retry && c.connect) ≡ false
      → Removed c conn fd (ok (record c { connection = none }, queues_destroyed conn ∷ []))

-- If the connector is not connecting and has no channel, removing the client's connection fails no
-- assertion: the slot is empty, connectionDestroyed is queued once, and the connector makes a new
-- attempt, on a new descriptor and from the initial delay, losing no descriptor, exactly if retry and
-- connect are set.
pub remove_connection-Removed :
    (c : Client) (conn fd errno : ℕ)
    → Ready c.connector
    → c.connection ≡ some conn
    → (not (same_states c.connector.state connecting) && not (is_some c.connector.channel)) ≡ true
    → Removed c conn fd (remove_connection c conn fd errno)
unfolding remove_connection
remove_connection-Removed c conn fd errno ready holds idle =
    let held : holds_key c.connection conn ≡ true =
      ap (λ o. holds_key o conn) holds ∙ eq→== conn conn refl in
    let c' = record c { connection = none } in
    let again =
      also (queues_destroyed conn) (with_connector c' (Connector.restart c.connector fd errno)) in
    let start =
      assert_passes (holds_key c.connection conn)
        (if c.retry && c.connect then again else ok (c', queues_destroyed conn ∷ [])) held in
    elim (Bool-cases (c.retry && c.connect)) [
      | inl y ↦
          let (r, run, attempted) = restart-allowed c.connector ready fd errno idle in
          subst (Removed c conn fd)
            (sym (
              start
              ∙ if_true (c.retry && c.connect) again _ y
              ∙ ap (λ o. also (queues_destroyed conn) (with_connector c' o)) run))
            (reconnects r y attempted (restart-Opens c.connector fd errno r run))
      | inr n ↦
          subst (Removed c conn fd) (sym (start ∙ if_false (c.retry && c.connect) again _ n))
            (rests n)
    ]
