-- ===== src/Tunnel/Teardown.antt =====
-- What the callbacks of the server's connection find after the client's connection went down.
use chaonet.Common.{◌≡◌, refl, inl, inr, true, false, List, ok, err, null_pointer, length}
use chaonet.Buffer.{contents}
use chaonet.Connection.{Connection, Action, Write, handle_write, disconnecting}
use chaonet.Connection.Inv.{has_output, tells_complete}
use chaonet.Connection.Sending.{Accepts}
use chaonet.Connection.Stream.{handle_write-Sent}
use chaonet.Connection.Ends.{shutdown-Ready}
use chaonet.Tunnel.{Which, server, Tunnel, Relay, on, teardown, on_write_complete}
use chaonet.Tunnel.Link.{Linked}

-- When the client's connection of a linked tunnel goes down while the server's connection has output and
-- a write-complete callback, teardown fails no check and keeps both. The handleWrite that sends the last
-- of the output queues the callback, which uses the empty clientConn_.
pub teardown_strands :
    (r : Relay) (w : Write)
    → Linked r
    → has_output r.tunnel.server_conn ≡ true
    → r.tunnel.server_conn.has_write_complete ≡ true
    → Accepts w (length (contents r.tunnel.server_conn.output))
    → (t : Tunnel) × (done : List (Which × Action)) × (teardown r.tunnel ≡ ok (t, done))
      × ((c : Connection) × (actions : List Action) × (handle_write t.server_conn w
            ≡ ok (c, actions))
          × (has_output c ≡ false → tells_complete actions ≡ true)
          × (on_write_complete server (record t { server_conn = c }) ≡ err null_pointer))
unfolding teardown on_write_complete
teardown_strands r w l left is_set fits =
    let (told, run, ready) = shutdown-Ready r.tunnel.server_conn l.server_end in
    let (c, actions, wrote_, s) =
      handle_write-Sent (record r.tunnel.server_conn { state = disconnecting }) w ready fits in
    (
      record r.tunnel {
        server_conn = record r.tunnel.server_conn { state = disconnecting };
        has_client = false;
        has_context = false;
        hooked = false;
      },
      on server told,
      rw run,
      (
        c,
        actions,
        wrote_,
        λ empty. elim (s.wakes left is_set) [
          | inl more ↦ absurd (cc (more, empty))
          | inr queued_ ↦ queued_
        ],
        refl,
      ),
    )
