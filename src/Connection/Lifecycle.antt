-- ===== src/Connection/Lifecycle.antt =====
-- The end of a connection: closing, half-closing, removal, and a send that comes too late.
use chaonet.Common.{
  ℕ, ◌+◌, ◌≤◌, ◌≡◌, refl, sym, ap, ◌∙◌, ◌≢◌, ◌⊎◌, inl, inr, Bool, true, false, not, ◌||◌, List, [],
  ◌∷◌, ◌>>=◌, ok, err, assert_failed, ◌==◌, ==_iff, Bool-cases, if_true, arith, length, ltb, lt→ltb,
}
use chaonet.Buffer.{Buffer, retrieve_all, contents, readable_bytes, max_size}
use chaonet.Buffer.Consume.{readable-length, retrieve_as_string-all}
use chaonet.Channel.{disable_all}
use chaonet.Channel.Events.{disable_all-Watches, is_none_event-Watches, is_writing-Watches}
use chaonet.Connection.{
  Connection, connected, disconnecting, disconnected, Action, shuts_write, logs_error, interest,
  calls_connection, calls_close, removes, write_error, send_in_loop, can_write_directly,
  direct_write, connection_destroyed, handle_close, remove_from_loop, shutdown_in_loop, when, also,
  Outcome, Write, send_buffer, run_in_loop, same_state,
}
use chaonet.Connection.Inv.{Ready, empty_output}
use chaonet.Connection.Sending.{keep_rest-Sent}

-- Closing and then destroying: the queued connectionDestroyed of a closed connection passes the
-- assertion of removeChannel. Each callback is called once, the connection callback first.
pub destroyed-close :
    (c : Connection)
    → (c.state ≡ connected) ⊎ (c.state ≡ disconnecting)
    → c.has_close ≡ true
    → (c' : Connection) × (handle_close c
        ≡ ok (c', interest 0 ∷ calls_connection ∷ calls_close ∷ []))
      × (c'.state ≡ disconnected)
      × (connection_destroyed c' ≡ ok (c', removes ∷ []))
unfolding handle_close connection_destroyed remove_from_loop
destroyed-close c up set_ = (
  record c { state = disconnected; channel = disable_all c.channel },
  elim up [ inl e ↦ rw e (rw set_) | inr e ↦ rw e (rw set_) ],
  refl,
  rw (is_none_event-Watches (disable_all c.channel) false false (disable_all-Watches c.channel)),
)

-- The socket is half-closed only when no output is left, in a connection that is not down yet.
pub shutdown_in_loop-drained :
    (c : Connection)
    → Ready c
    → c.state ≢ disconnected
    → ((shutdown_in_loop c ≡ ok (c, shuts_write ∷ [])) × (contents c.output ≡ []))
      ⊎ ((shutdown_in_loop c ≡ ok (c, [])) × (contents c.output ≢ []))
unfolding shutdown_in_loop when
shutdown_in_loop-drained c r up = elim r.pending [
  | inl down ↦ absurd (up down)
  | inr e ↦ elim (Bool-cases (readable_bytes c.output == 0)) [
    | inl none ↦ inl (
      rw (is_writing-Watches c.channel r.reads r.writes r.watches) (rw e (rw none)),
      empty_output c r ((==_iff _ _).0 none),
    )
    | inr some ↦ inr (
      rw (is_writing-Watches c.channel r.reads r.writes r.watches) (rw e (rw some)),
      λ e.
          cc
            (sym (ap (λ n. n == 0) (readable-length c.output r.output_valid ∙ ap length e)) ∙ some),
    )
  ]
]

never_quiet : (b : Bool) → not (b || true) ≡ false
never_quiet true = refl
never_quiet false = refl

after_error :
    (o : Outcome) (c' : Connection) (rest : List Action)
    → o ≡ ok (c', rest)
    → also (logs_error ∷ []) o ≡ ok (c', logs_error ∷ rest)
after_error o c' rest e = rw e

-- A message that another thread sent is written after the connection was closed: if write(2) fails, as
-- it does on a connection that is gone, sendInLoop turns writing on again, and connectionDestroyed then
-- fails the assertion of removeChannel that the channel has no interest.
pub send_after_close :
    (c : Connection) (x : ℕ) (xs : List ℕ)
    → Ready c
    → c.state ≡ disconnected
    → c.output.writer_index + length (x ∷ xs) ≤ max_size
    → (c' : Connection) × (actions : List Action) × (send_in_loop c (x ∷ xs) write_error
        ≡ ok (c', actions))
      × (connection_destroyed c' ≡ err assert_failed)
unfolding connection_destroyed remove_from_loop send_in_loop direct_write
send_after_close c x xs r down fits =
    let (c', rest, run, s, _, _, w) = keep_rest-Sent c (x ∷ xs) 0 r (omega arith) fits in
    let stuck : connection_destroyed c' ≡ err assert_failed =
      rw (s.state ∙ down)
        (rw (is_none_event-Watches c'.channel r.reads true w) (rw (never_quiet r.reads))) in
    let some_left : ltb 0 (length (x ∷ xs)) ≡ true = lt→ltb 0 _ (omega arith) in
    elim (Bool-cases (can_write_directly c)) [
      | inl direct ↦
          (c', logs_error ∷ rest, rw direct (rw some_left (after_error _ c' rest run)), stuck)
      | inr indirect ↦ (c', rest, rw indirect (rw some_left (rw run)), stuck)
    ]

-- send(Buffer *) in the loop's thread, on a connection that is up, is sendInLoop of all readable bytes.
pub send_buffer-connected :
    (c : Connection) (b : Buffer) (w : Write)
    → c.state ≡ connected
    → send_buffer true c b w
      ≡ (send_in_loop c (contents b) w >>= λ r. ok (r.0, r.1, retrieve_all b))
unfolding send_buffer run_in_loop
send_buffer-connected c b w up =
    if_true _ _ _ (ap (λ s. same_state s connected) up)
    ∙ ap (λ p. send_in_loop c p.0 w >>= λ r. ok (r.0, r.1, p.1)) (retrieve_as_string-all b)
