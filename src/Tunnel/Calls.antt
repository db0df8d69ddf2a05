-- ===== src/Tunnel/Calls.antt =====
-- The tunnel's callbacks on the high-water mark and on completed writes keep it linked.
use chaonet.Common.{
  ◌≡◌, refl, ap, ◌∙◌, inl, inr, Bool, true, false, List, [], ◌∷◌, ◌++◌, ok, ltb, ltb→lt, if_true,
  if_false, Bool-cases, arith, not, ne→==-eq-false,
}
use chaonet.Buffer.{readable_bytes}
use chaonet.Connection.{
  Connection, Action, Functor, sends, starts_read, stops_read, shuts_down, write_complete,
  high_water,
}
use chaonet.Connection.Inv.{has_output, wired}
use chaonet.Connection.Ends.{
  Switched, start_read-Switched, stop_read-Switched, Switched-End, End-completes,
}
use chaonet.Tunnel.{
  Which, server, client, Tunnel, Relay, on, call, later, on_high_water_mark, on_write_complete,
  set_write_complete_callback, queued,
}
use chaonet.Tunnel.Link.{
  Flows, reads_on, has_more, Linked, due, wired_to, wired_to-on, wired_to-on_other, Flows-same,
  Flows-rest,
}

-- What a callback leaves: a linked tunnel with the same output, and nothing was written.
pub record Called (t : Tunnel) (s : Relay × List (Which × Action)) : Type 0 where
  pub linked : Linked s.0
  pub server_output : s.0.tunnel.server_conn.output ≡ t.server_conn.output
  pub client_output : s.0.tunnel.client_conn.output ≡ t.client_conn.output
  pub quiet : (which : Which) → wired_to which s.1 ≡ []

abbrev pub CallOf : Tunnel → Which × Functor → List (Which × Functor) → Type 0
CallOf t f rest = (s : Relay × List (Which × Action)) × (later rest (call t f) ≡ ok s) × Called t s

full : (c : Connection) → ltb 0 (readable_bytes c.output) ≡ true → has_output c ≡ true
full c h = ap not (
    ne→==-eq-false (readable_bytes c.output) 0
      (λ e. omega (arith, ltb→lt 0 (readable_bytes c.output) h, e)))

quiet_on :
    (at : Which) (actions : List Action)
    → wired actions ≡ []
    → (which : Which) → wired_to which (on at actions) ≡ []
quiet_on server actions e server = wired_to-on server actions ∙ e
quiet_on server actions e client = wired_to-on_other client server actions refl
quiet_on client actions e server = wired_to-on_other server client actions refl
quiet_on client actions e client = wired_to-on client actions ∙ e

module _ (t : Tunnel) (f : Which × Functor) (rest : List (Which × Functor))
    (l : Linked (record { tunnel = t; pending = f ∷ rest })) where
  -- Nothing happens.
  nothing :
      ((which : Which) → due which (f ∷ rest) ≡ due which rest)
      → call t f ≡ ok (t, [])
      → CallOf t f rest
  unfolding later
  nothing e run = (
    (record { tunnel = t; pending = rest ++ [] }, []),
    rw run,
    record {
      linked = record {
        server_end = l.server_end;
        client_end = l.client_end;
        has_client = l.has_client;
        has_context = l.has_context;
        to_server = Flows-same rest [] (Flows-rest f rest (e server) l.to_server) refl refl refl;
        to_client = Flows-same rest [] (Flows-rest f rest (e client) l.to_client) refl refl refl;
      };
      server_output = refl;
      client_output = refl;
      quiet = λ which. refl;
    },
  )

  -- One connection stops or starts reading, and the other one's callback is set or cleared.
  switched_client :
      {c' : Connection} {actions : List Action} (to set_ : Bool)
      → Switched t.client_conn to c' actions
      → call t f
        ≡ ok (
          record t {
            client_conn = c';
            server_conn = set_write_complete_callback t.server_conn set_;
          },
          on client actions,
        )
      → ((pending : List (Which × Functor))
          → Flows server (set_write_complete_callback t.server_conn set_) c' pending)
      → due client (f ∷ rest) ≡ due client rest
      → CallOf t f rest
  unfolding later
  switched_client {c'} {actions} to set_ s run flow e = (
    (
      record {
        tunnel = record t {
          client_conn = c';
          server_conn = set_write_complete_callback t.server_conn set_;
        };
        pending = rest ++ queued (on client actions);
      },
      on client actions,
    ),
    rw run,
    record {
      linked = record {
        server_end = End-completes t.server_conn set_ l.server_end;
        client_end = Switched-End l.client_end s;
        has_client = l.has_client;
        has_context = l.has_context;
        to_server = flow _;
        to_client = Flows-same rest _ (Flows-rest f rest e l.to_client) s.output s.completes refl;
      };
      server_output = refl;
      client_output = s.output;
      quiet = quiet_on client actions s.quiet;
    },
  )

  switched_server :
      {s' : Connection} {actions : List Action} (to set_ : Bool)
      → Switched t.server_conn to s' actions
      → call t f
        ≡ ok (
          record t {
            client_conn = set_write_complete_callback t.client_conn set_;
            server_conn = s';
          },
          on server actions,
        )
      → ((pending : List (Which × Functor))
          → Flows client (set_write_complete_callback t.client_conn set_) s' pending)
      → due server (f ∷ rest) ≡ due server rest
      → CallOf t f rest
  unfolding later
  switched_server {s'} {actions} to set_ s run flow e = (
    (
      record {
        tunnel = record t {
          client_conn = set_write_complete_callback t.client_conn set_;
          server_conn = s';
        };
        pending = rest ++ queued (on server actions);
      },
      on server actions,
    ),
    rw run,
    record {
      linked = record {
        server_end = Switched-End l.server_end s;
        client_end = End-completes t.client_conn set_ l.client_end;
        has_client = l.has_client;
        has_context = l.has_context;
        to_server = Flows-same rest _ (Flows-rest f rest e l.to_server) s.output s.completes refl;
        to_client = flow _;
      };
      server_output = s.output;
      client_output = refl;
      quiet = quiet_on server actions s.quiet;
    },
  )

-- Every pending functor of a linked tunnel runs without a fault.
pub called :
    (t : Tunnel) (f : Which × Functor) (rest : List (Which × Functor))
    → Linked (record { tunnel = t; pending = f ∷ rest })
    → CallOf t f rest
unfolding call on_write_complete on_high_water_mark
called t (server, write_complete) rest l =
    let (c', actions, run, s) = start_read-Switched t.client_conn l.client_end.ready in
    switched_client t _ rest l true false s (if_true _ _ _ l.has_client ∙ rw run)
      (λ p. reads_on s.reading) refl
called t (client, write_complete) rest l =
    let (s', actions, run, s) = start_read-Switched t.server_conn l.server_end.ready in
    switched_server t _ rest l true false s (if_true _ _ _ l.has_client ∙ rw run)
      (λ p. reads_on s.reading) refl
called t (server, high_water n) rest l =
    elim (Bool-cases (ltb 0 (readable_bytes t.server_conn.output))) [
      | inl more ↦
          let (c', actions, run, s) = stop_read-Switched t.client_conn l.client_end.ready in
          switched_client t _ rest l false true s
            (if_true _ _ _ more ∙ if_true _ _ _ l.has_client ∙ rw run)
            (λ p. has_more refl (full t.server_conn more)) refl
      | inr none_left ↦ nothing t _ rest l (λ which. refl) (if_false _ _ _ none_left)
    ]
called t (client, high_water n) rest l =
    elim (Bool-cases (ltb 0 (readable_bytes t.client_conn.output))) [
      | inl more ↦
          let (s', actions, run, s) = stop_read-Switched t.server_conn l.server_end.ready in
          switched_server t _ rest l false true s
            (if_true _ _ _ l.has_client ∙ if_true _ _ _ more ∙ rw run)
            (λ p. has_more refl (full t.client_conn more)) refl
      | inr none_left ↦
          nothing t _ rest l (λ which. refl) (if_true _ _ _ l.has_client ∙ if_false _ _ _ none_left)
    ]
called t (which, sends message) rest l = nothing t _ rest l (λ w. refl) refl
called t (which, starts_read) rest l = nothing t _ rest l (λ w. refl) refl
called t (which, stops_read) rest l = nothing t _ rest l (λ w. refl) refl
called t (which, shuts_down) rest l = nothing t _ rest l (λ w. refl) refl
