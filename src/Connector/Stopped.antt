-- ===== src/Connector/Stopped.antt =====
-- A connector that is stopped while it connects.
use chaonet.Common.{ℕ, ◌≡◌, refl, ap, false, true, [], ◌∷◌, ◌++◌, some, ok, err, assert_failed}
use chaonet.Channel.{Channel}
use chaonet.Connector.{
  Connector, connecting, connected, cancels_timer, unwatches, closes, resets_channel, same_states,
  start, start_in_loop, stop, handle_write,
}
use chaonet.Connector.Run.{stops, writable, step, run}
use chaonet.Connector.Attempts.{Ready}
use chaonet.Connector.Life.{attached_channel, remove_and_reset_channel-some}

-- How a stopped connector is left.
pub record Stranded (c : Connector) (fd errno : ℕ) : Type 0 where
  pub channel : Channel
  pub attached : c.channel ≡ some channel
  pub left : Connector
  pub ran :
      run c (stops ∷ writable 0 false ∷ [])
      ≡ ok (left, cancels_timer ∷ unwatches ∷ closes channel.fd ∷ [])
  pub state : left.state ≡ connected
  pub stopped : left.connect ≡ false
  pub next_start : start true left fd errno ≡ err assert_failed

-- If a connector is stopped while it connects and the attempt succeeds, both calls return and the
-- descriptor is closed, but the state stays kConnected, and the next start() fails the assertion of
-- startInLoop.
pub stop_strands :
    (c : Connector) (fd errno : ℕ) → Ready c → c.state ≡ connecting → Stranded c fd errno
unfolding run step stop handle_write start start_in_loop
stop_strands c fd errno r s =
    let (ch, e) = attached_channel c r s in
    let off = record c { connect = false } in
    record {
      channel = ch;
      attached = e;
      left = record off { state = connected; queued = c.queued ++ resets_channel ∷ [] };
      ran = rw (ap (λ x. same_states x connecting) s, remove_and_reset_channel-some off ch e) refl;
      state = refl;
      stopped = refl;
      next_start = refl;
    }
