-- ===== src/Connector/Tests.antt =====
-- A connector on descriptors 3 and 4.
use chaonet.Common.{◌≡◌, refl, true, false, List, [], ◌∷◌, some, ok, arith}
use chaonet.Channel.{new_channel}
use chaonet.Connector.{
  Connector, new_connector, connecting, Effect, start, start_in_loop, connect_now, go_on,
  connecting_on, verdict, retry, also, handle_write, remove_and_reset_channel, reset_channel,
}
use chaonet.Connector.Run.{Event, starts, writable, runs_next, fires, step, run, run_functor}
use chaonet.Connector.Attempts.{Ready}
use chaonet.Connector.Sequence.{all_allowed}
use chaonet.Connector.Backoff.{OnLadder, run-OnLadder}
use chaonet.Connector.Stopped.{Stranded, stop_strands}

new_connector-Ready : Ready new_connector
new_connector-Ready = record { attached = λ e. cc; pending = refl; bounded = omega arith }

-- The first attempt is refused, the second one succeeds.
abbrev second_try : List Event
second_try =
    starts true 3 115 ∷ writable 111 false ∷ runs_next 0 0 ∷ fires 4 115 ∷ writable 0 false ∷ []

second_try-allowed : all_allowed new_connector second_try ≡ true
unfolding step start start_in_loop connect_now go_on connecting_on verdict retry also handle_write
    remove_and_reset_channel run_functor reset_channel
second_try-allowed = refl

run-OnLadder_example :
    (r : Connector × List Effect) × (run new_connector second_try ≡ ok r)
    × OnLadder 500 0 r.1 r.0.retry_delay_ms
run-OnLadder_example =
    run-OnLadder new_connector second_try new_connector-Ready second_try-allowed refl

abbrev halfway : Connector
halfway = record new_connector {
  connect = true;
  state = connecting;
  channel = some (record (new_channel 3) { events = 4 });
}

halfway-Ready : Ready halfway
halfway-Ready = record { attached = λ e. refl; pending = refl; bounded = omega arith }

stop_strands_example : Stranded halfway 4 115
stop_strands_example = stop_strands halfway 4 115 halfway-Ready refl
