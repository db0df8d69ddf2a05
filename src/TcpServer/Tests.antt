-- ===== src/TcpServer/Tests.antt =====
-- Two connections on two loops; the first one is closed.
use chaonet.Common.{true, List, [], ◌∷◌, none, some}
use chaonet.Channel.{new_channel}
use chaonet.Pool.{Pool}
use chaonet.TcpServer.{Server, Peer, new_server, Event, accepts, runs_removal}

abbrev pool : Pool
pool = record { base_loop = 0; started = true; num_threads = 2; next = 0; loops = 5 ∷ 6 ∷ [] }

abbrev server : Server
server = new_server pool (new_channel 3)

abbrev first_peer : Peer
first_peer = record { conn_id = 1; sockfd = 10; io_loop = 5 }

abbrev events : List Event
events = accepts (some 10) ∷ accepts none ∷ accepts (some 11) ∷ runs_removal first_peer ∷ []
