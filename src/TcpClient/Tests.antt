-- ===== src/TcpClient/Tests.antt =====
-- A client that connects again.
use chaonet.Common.{true, some, refl, arith}
use chaonet.Connector.{Connector, connected, new_connector}
use chaonet.Connector.Attempts.{Ready}
use chaonet.TcpClient.{Client, new_client, remove_connection}
use chaonet.TcpClient.Reconnect.{Removed, remove_connection-Removed}

-- The connector handed descriptor 7 over, and its channel was reset.
abbrev connector : Connector
connector = record new_connector { connect = true; state = connected }

abbrev client : Client
client = record (new_client connector) { retry = true; connection = some 7 }

connector-Ready : Ready connector
connector-Ready = record { attached = λ e. cc; pending = refl; bounded = omega arith }

-- The next attempt gets descriptor 8 and EINPROGRESS.
remove_connection-Removed_example : Removed client 7 8 (remove_connection client 7 8 115)
remove_connection-Removed_example =
    remove_connection-Removed client 7 8 115 connector-Ready refl refl
