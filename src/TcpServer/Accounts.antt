-- ===== src/TcpServer/Accounts.antt =====
-- Each connection is established once and destroyed once, in its loop.
use chaonet.Common.{
  ℕ, ◌+◌, ◌≤◌, ◌≡◌, Bool, true, false, ◌&&◌, List, [], ◌∷◌, Option, none, some, ok, err, ◌==◌,
  if◌then◌else◌,
}
use chaonet.Pool.Valid.{Valid}
use chaonet.TcpServer.{
  Peer, Server, establishes, destroys, Effect, runs_in, queues_in, Outcome, Event, accepts,
  runs_removal, step, run,
}

abbrev is_peer : ℕ → ℕ → Peer → ℕ
is_peer id loop c = if c.conn_id == id && c.io_loop == loop then 1 else 0

-- How often a connection with that number was established, and destroyed, in that loop.
abbrev pub established : ℕ → ℕ → List Effect → ℕ
established id loop [] = 0
established id loop (runs_in k (establishes c) ∷ es) =
    (if k == loop then is_peer id loop c else 0) + established id loop es
established id loop (_ ∷ es) = established id loop es

abbrev pub destroyed : ℕ → ℕ → List Effect → ℕ
destroyed id loop [] = 0
destroyed id loop (queues_in k (destroys c) ∷ es) =
    (if k == loop then is_peer id loop c else 0) + destroyed id loop es
destroyed id loop (_ ∷ es) = destroyed id loop es

abbrev is_held : ℕ → ℕ → Option Peer → ℕ
is_held id loop none = 0
is_held id loop (some c) = is_peer id loop c

-- Whether the server holds it.
abbrev pub held : ℕ → ℕ → Server → ℕ
held id loop s = is_held id loop (s.connections id)

abbrev same_loop : Option Peer → Peer → Bool
same_loop none c = false
same_loop (some d) c = d.io_loop == c.io_loop && d.conn_id == c.conn_id

-- The numbers are given out in order, the map is filed by them, and the pool can give a loop.
pub record Inv (s : Server) : Type 0 where
  pub pool : Valid s.pool
  pub fresh : (id : ℕ) → s.next_conn_id ≤ id → s.connections id ≡ none
  pub callback : s.acceptor.has_callback ≡ true

-- How many connections were accepted.
abbrev pub accepted : List Event → ℕ
accepted [] = 0
accepted (accepts (some fd) ∷ es) = 1 + accepted es
accepted (_ ∷ es) = accepted es

-- A removal is that of a connection which the server holds.
abbrev pub allowed : Server → Event → Bool
allowed s (accepts fd) = true
allowed s (runs_removal c) = same_loop (s.connections c.conn_id) c

record Stepped (s : Server) (e : Event) (o : Outcome) : Type 0 where
  next : Server
  effects : List Effect
  run : o ≡ ok (next, effects)
  inv : Inv next
  number : next.next_conn_id ≡ s.next_conn_id + accepted (e ∷ [])
  account :
      (id loop : ℕ)
      → held id loop next + destroyed id loop effects ≡ held id loop s + established id loop effects

abbrev in_value : Outcome → (Server → Bool) → Bool
in_value (err f) test = false
in_value (ok r) test = test r.0

-- Each event is allowed where it comes.
unfoldable pub all_allowed : Server → List Event → Bool
all_allowed s [] = true
all_allowed s (e ∷ es) = allowed s e && in_value (step s e) (λ t. all_allowed t es)

pub record Accounted (s : Server) (o : Outcome) : Type 0 where
  pub last : Server
  pub effects : List Effect
  pub ran : o ≡ ok (last, effects)
  pub inv : Inv last
  pub account :
      (id loop : ℕ)
      → held id loop last + destroyed id loop effects ≡ held id loop s + established id loop effects
