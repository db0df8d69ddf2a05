-- ===== src/Tunnel/Run.antt =====
-- A tunnel's whole life, and how it begins.
use chaonet.Common.{
  ℕ, ◌≡◌, refl, sym, ap, ◌∙◌, Bool, true, ◌&&◌, List, [], ◌∷◌, ◌++◌, append_assoc, append-nil, ok,
  leb, leb→le, and_left, and_right, length, arith, Result, err,
}
use chaonet.Buffer.{contents, readable_bytes}
use chaonet.Buffer.Consume.{readable-length}
use chaonet.Connection.{Connection, Action, Functor, Write, accepted, would_block, write_error}
use chaonet.Connection.Inv.{Ready}
use chaonet.Connection.Sending.{Accepts}
use chaonet.Tunnel.{
  Which, server, client, Tunnel, Relay, Event, arrives, writable, runs, step, run, later,
}
use chaonet.Tunnel.Link.{Linked, brought, allowed, wired_to, wired_to-append, sink_of}
use chaonet.Tunnel.Calls.{called}
use chaonet.Tunnel.Relayed.{
  StepOf, stream_same, arrives_client, arrives_server, writable_server, writable_client,
}

runs_step :
    (t : Tunnel) (pending : List (Which × Functor))
    → Linked (record { tunnel = t; pending = pending })
    → StepOf (record { tunnel = t; pending = pending }) runs
unfolding step
runs_step t [] l = (
  (record { tunnel = t; pending = [] }, []),
  refl,
  record {
    linked = l;
    server_stream = sym (append-nil (contents t.server_conn.output));
    client_stream = sym (append-nil (contents t.client_conn.output));
  },
)
runs_step t (f ∷ rest) l =
    let (s, e, c) = called t f rest l in
    (
      s,
      e,
      record {
        linked = c.linked;
        server_stream = stream_same server s.1 _ _ (c.quiet server) (ap contents c.server_output);
        client_stream = stream_same client s.1 _ _ (c.quiet client) (ap contents c.client_output);
      },
    )

accepts :
    (c : Connection) (w : Write) (r : Relay) (at : Which)
    → sink_of at r.tunnel ≡ c
    → Ready c
    → allowed r (writable at w) ≡ true
    → Accepts w (length (contents c.output))
accepts c would_block r at e v h = tt
accepts c write_error r at e v h = tt
accepts c (accepted n) r at e v h = omega (
  arith,
  readable-length c.output v.output_valid,
  leb→le n (readable_bytes c.output) (ap (λ d. leb n (readable_bytes d.output)) (sym e) ∙ h),
)

-- An allowed event on a linked tunnel.
pub stepped : (r : Relay) (e : Event) → Linked r → allowed r e ≡ true → StepOf r e
stepped r (arrives client (x ∷ xs) w) l h =
    arrives_client r l x xs w (leb→le _ _ (and_left _ _ (and_right _ _ h)))
      (leb→le _ _ (and_right _ _ (and_right _ _ h)))
stepped r (arrives server (x ∷ xs) w) l h =
    arrives_server r l x xs w (leb→le _ _ (and_left _ _ (and_right _ _ h)))
      (leb→le _ _ (and_right _ _ (and_right _ _ h)))
stepped r (arrives which [] w) l h = absurd cc
stepped r (writable server w) l h =
    writable_server r l w (accepts r.tunnel.server_conn w r server refl l.server_end.ready h)
stepped r (writable client w) l h =
    writable_client r l w (accepts r.tunnel.client_conn w r client refl l.client_end.ready h)
stepped r runs l h = runs_step r.tunnel r.pending l

-- What the events of a sequence bring for a connection to send, in order.
abbrev pub all_brought : Which → List Event → List ℕ
all_brought which [] = []
all_brought which (e ∷ es) = brought which e ++ all_brought which es

abbrev pub in_value : Result (Relay × List (Which × Action)) → (Relay → Bool) → Bool
in_value (err f) test = true
in_value (ok s) test = test s.0

-- Each event is allowed where it comes, if the events before it ran without a fault.
abbrev pub all_allowed : Relay → List Event → Bool
all_allowed r [] = true
all_allowed r (e ∷ es) = allowed r e && in_value (step r e) (λ r'. all_allowed r' es)

-- What a sequence of events makes of a tunnel.
pub record Carried (r : Relay) (es : List Event) (s : Relay × List (Which × Action)) : Type 0 where
  pub linked : Linked s.0
  pub server_stream :
      wired_to server s.1 ++ contents s.0.tunnel.server_conn.output
      ≡ contents r.tunnel.server_conn.output ++ all_brought server es
  pub client_stream :
      wired_to client s.1 ++ contents s.0.tunnel.client_conn.output
      ≡ contents r.tunnel.client_conn.output ++ all_brought client es

-- Two stretches of a stream, one after the other.
joined :
    (which : Which) (xs ys : List (Which × Action)) (old mid new now later : List ℕ)
    → wired_to which xs ++ mid ≡ old ++ now
    → wired_to which ys ++ new ≡ mid ++ later
    → wired_to which (xs ++ ys) ++ new ≡ old ++ (now ++ later)
joined which xs ys old mid new now later first second =
    ap (λ m. m ++ new) (wired_to-append which xs ys)
    ∙ append_assoc (wired_to which xs) (wired_to which ys) new
    ∙ ap (λ m. wired_to which xs ++ m) second
    ∙ sym (append_assoc (wired_to which xs) mid later)
    ∙ ap (λ m. m ++ later) first
    ∙ append_assoc old now later

-- Any sequence of allowed events runs without a fault, and what it is about is kept: both connections are
-- up with their invariants, each byte that came was passed on, and a connection that is not read will be
-- started again. In both directions, the bytes that the socket accepted, followed by the output buffer,
-- are the old output followed by the bytes that came on the other connection, in order.
pub run-Carried :
    (r : Relay) (es : List Event)
    → Linked r
    → all_allowed r es ≡ true
    → (s : Relay × List (Which × Action)) × (run r es ≡ ok s) × Carried r es s
unfolding run
run-Carried r [] l h = (
  (r, []),
  refl,
  record {
    linked = l;
    server_stream = sym (append-nil (contents r.tunnel.server_conn.output));
    client_stream = sym (append-nil (contents r.tunnel.client_conn.output));
  },
)
run-Carried r (e ∷ es) l h =
    let (s, goes, d) = stepped r e l (and_left (allowed r e) _ h) in
    let rest_allowed : all_allowed s.0 es ≡ true =
      sym (ap (λ o. in_value o (λ r'. all_allowed r' es)) goes) ∙ and_right (allowed r e) _ h in
    let (q, ends, c) = run-Carried s.0 es d.linked rest_allowed in
    (
      (q.0, s.1 ++ q.1),
      rw (goes, ends),
      record {
        linked = c.linked;
        server_stream = joined server s.1 q.1 _ _ _ _ _ d.server_stream c.server_stream;
        client_stream = joined client s.1 q.1 _ _ _ _ _ d.client_stream c.client_stream;
      },
    )
