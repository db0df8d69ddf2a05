-- ===== src/Tunnel/Link.antt =====
-- What holds of a tunnel between the calls of its loop.
use chaonet.Common.{
  ℕ, ◌+◌, ◌≡◌, refl, sym, ap, ◌∙◌, inl, inr, Bool, true, false, not, ◌&&◌, ◌||◌, List, [], ◌∷◌,
  ◌++◌, append_assoc, or_true, if◌then◌else◌, leb, length, arith, ◌==◌,
}
use chaonet.Buffer.{contents, max_size, readable_bytes, Buffer}
use chaonet.Connection.{Connection, Action, Functor, accepted, wrote, queue, write_complete}
use chaonet.Connection.Inv.{has_output, wired, tells_complete}
use chaonet.Connection.Sending.{Sent}
use chaonet.Connection.Ends.{End}
use chaonet.Tunnel.{
  Which, server, client, same_which, Tunnel, Relay, Event, arrives, writable, on, queued,
}

-- The bytes that the socket of one connection accepted, in order.
abbrev pub wired_to : Which → List (Which × Action) → List ℕ
wired_to which [] = []
wired_to which ((at, wrote bytes) ∷ rest) =
    (if same_which at which then bytes else []) ++ wired_to which rest
wired_to which (_ ∷ rest) = wired_to which rest

-- Whether the write-complete callback of a connection is pending.
abbrev pub due : Which → List (Which × Functor) → Bool
due which [] = false
due which ((at, write_complete) ∷ rest) = same_which at which || due which rest
due which (_ ∷ rest) = due which rest

-- `sink` is the connection `which` that sends what `source` reads. Where `source` is not read, something
-- will start it again: `sink` has a write-complete callback, and it has output, or the callback is
-- pending.
pub data Flows (which : Which) (sink source : Connection) (pending : List (Which × Functor))
    : Type 0 where
  reads_on : source.reading ≡ true → Flows which sink source pending
  has_more :
      sink.has_write_complete ≡ true → has_output sink ≡ true → Flows which sink source pending
  is_due :
      sink.has_write_complete ≡ true → due which pending ≡ true → Flows which sink source pending

pub record Linked (r : Relay) : Type 0 where
  pub server_end : End r.tunnel.server_conn
  pub client_end : End r.tunnel.client_conn
  pub has_client : r.tunnel.has_client ≡ true
  pub has_context : r.tunnel.has_context ≡ true
  pub to_server : Flows server r.tunnel.server_conn r.tunnel.client_conn r.pending
  pub to_client : Flows client r.tunnel.client_conn r.tunnel.server_conn r.pending

-- The bytes that an event brings for a connection to send.
abbrev pub brought : Which → Event → List ℕ
brought server (arrives client bytes w) = bytes
brought client (arrives server bytes w) = bytes
brought which _ = []

abbrev pub source_of : Which → Tunnel → Connection
source_of server t = t.client_conn
source_of client t = t.server_conn

abbrev pub sink_of : Which → Tunnel → Connection
sink_of server t = t.server_conn
sink_of client t = t.client_conn

-- What an event takes for granted: a read that is not the end of the stream brings bytes, there is room
-- below max_size(), and write(2) accepts at most what it was given.
abbrev pub has_room : Buffer → List ℕ → Bool
has_room b bytes = leb (b.writer_index + length bytes) max_size

abbrev pub allowed : Relay → Event → Bool
allowed r (arrives at bytes w) =
    leb 1 (length bytes)
    && (has_room (sink_of at r.tunnel).input bytes && has_room (source_of at r.tunnel).output bytes)
allowed r (writable at (accepted n)) = leb n (readable_bytes (sink_of at r.tunnel).output)
allowed r _ = true

-- What an event makes of a tunnel: no byte is lost, repeated or reordered in either direction.
pub record Relayed (r : Relay) (e : Event) (s : Relay × List (Which × Action)) : Type 0 where
  pub linked : Linked s.0
  pub server_stream :
      wired_to server s.1 ++ contents s.0.tunnel.server_conn.output
      ≡ contents r.tunnel.server_conn.output ++ brought server e
  pub client_stream :
      wired_to client s.1 ++ contents s.0.tunnel.client_conn.output
      ≡ contents r.tunnel.client_conn.output ++ brought client e

pub wired_to-on :
    (which : Which) (actions : List Action) → wired_to which (on which actions) ≡ wired actions
wired_to-on which [] = refl
wired_to-on server (wrote bytes ∷ rest) = ap (λ m. bytes ++ m) (wired_to-on server rest)
wired_to-on client (wrote bytes ∷ rest) = ap (λ m. bytes ++ m) (wired_to-on client rest)
wired_to-on which (x ∷ rest) = wired_to-on which rest

pub wired_to-on_other :
    (which at : Which) (actions : List Action)
    → same_which at which ≡ false
    → wired_to which (on at actions) ≡ []
wired_to-on_other which at [] h = refl
wired_to-on_other which at (wrote bytes ∷ rest) h = rw h (wired_to-on_other which at rest h)
wired_to-on_other which at (x ∷ rest) h = wired_to-on_other which at rest h

pub wired_to-append :
    (which : Which) (xs ys : List (Which × Action))
    → wired_to which (xs ++ ys) ≡ wired_to which xs ++ wired_to which ys
wired_to-append which [] ys = refl
wired_to-append which ((at, wrote bytes) ∷ xs) ys =
    ap (λ m. (if same_which at which then bytes else []) ++ m) (wired_to-append which xs ys)
    ∙ sym (append_assoc _ (wired_to which xs) (wired_to which ys))
wired_to-append which (x ∷ xs) ys = wired_to-append which xs ys

pub due-on :
    (which : Which) (actions : List Action)
    → tells_complete actions ≡ true
    → due which (queued (on which actions)) ≡ true
due-on which [] h = h
due-on server (queue write_complete ∷ rest) h = refl
due-on client (queue write_complete ∷ rest) h = refl
due-on which (queue f ∷ rest) h = due-on which rest h
due-on which (x ∷ rest) h = due-on which rest h

pub due-before :
    (which : Which) (xs ys : List (Which × Functor))
    → due which xs ≡ true
    → due which (xs ++ ys) ≡ true
due-before which [] ys h = absurd cc
due-before which ((at, write_complete) ∷ xs) ys h = ground (arith, due-before which xs ys)
due-before which (x ∷ xs) ys h = due-before which xs ys h

pub due-behind :
    (which : Which) (xs ys : List (Which × Functor))
    → due which ys ≡ true
    → due which (xs ++ ys) ≡ true
due-behind which [] ys h = h
due-behind which ((at, write_complete) ∷ xs) ys h =
    ap (λ b. same_which at which || b) (due-behind which xs ys h) ∙ or_true (same_which at which)
due-behind which (x ∷ xs) ys h = due-behind which xs ys h

-- The sink sent something.
pub Flows-Sent :
    {which : Which} {sink source sink' : Connection} {message : List ℕ} {actions : List Action}
    {source' : Connection} (pending : List (Which × Functor))
    → Flows which sink source pending
    → Sent sink message sink' actions
    → source'.reading ≡ source.reading
    → Flows which sink' source' (pending ++ queued (on which actions))
Flows-Sent pending (reads_on reads) s same = reads_on (same ∙ reads)
Flows-Sent {which} {actions = actions} pending (has_more is_set left) s same =
    elim (s.wakes left is_set) [
      | inl still ↦ has_more (s.completes ∙ is_set) still
      | inr told ↦
          is_due (s.completes ∙ is_set) (due-behind which pending _ (due-on which actions told))
    ]
Flows-Sent {which} pending (is_due is_set waiting) s same =
    is_due (s.completes ∙ is_set) (due-before which pending _ waiting)

-- Nothing that matters for this direction changed.
pub Flows-same :
    {which : Which} {sink source sink' source' : Connection} (pending more : List (Which × Functor))
    → Flows which sink source pending
    → sink'.output ≡ sink.output
    → sink'.has_write_complete ≡ sink.has_write_complete
    → source'.reading ≡ source.reading
    → Flows which sink' source' (pending ++ more)
Flows-same pending more (reads_on reads) out set_ same = reads_on (same ∙ reads)
Flows-same pending more (has_more is_set left) out set_ same =
    has_more (set_ ∙ is_set) (ap (λ b. not (readable_bytes b == 0)) out ∙ left)
Flows-same {which} pending more (is_due is_set waiting) out set_ same =
    is_due (set_ ∙ is_set) (due-before which pending more waiting)

-- A functor that is not this direction's callback was taken off.
pub Flows-rest :
    {which : Which} {sink source : Connection} (f : Which × Functor) (rest : List (Which × Functor))
    → (due which (f ∷ rest) ≡ due which rest)
    → Flows which sink source (f ∷ rest)
    → Flows which sink source rest
Flows-rest f rest e (reads_on reads) = reads_on reads
Flows-rest f rest e (has_more is_set left) = has_more is_set left
Flows-rest f rest e (is_due is_set waiting) = is_due is_set (sym e ∙ waiting)
