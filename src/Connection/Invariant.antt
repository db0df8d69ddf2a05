-- ===== src/Connection/Invariant.antt =====
-- Every event, and so every sequence of events, keeps a connection ready, its bytes in order and its
-- state moving on.
use chaonet.Common.{
  ℕ, ◌+◌, ◌≤◌, ◌≡◌, refl, ap, inl, inr, Bool, true, false, List, [], ◌∷◌, ◌++◌, ok, err, Bool-cases,
  arith, length, ◌&&◌,
}
use chaonet.Buffer.{contents, max_size, received}
use chaonet.Connection.{
  Connection, connected, same_state, Action, queue, logs_error, Functor, starts_read, stops_read,
  Write, send, send_in_loop, start_read, stop_read, handle_error, run_in_loop,
}
use chaonet.Connection.Inv.{Ready, wired}
use chaonet.Connection.Run.{
  Event, established, destroyed, hung_up, errored, sends, runs_send, writable, readable, takes,
  shuts, starts, stops, runs_shutdown, runs_start, runs_stop, step, handed, arrived, rank, allowed,
}
use chaonet.Connection.Steps.{
  ResultOf, same, established-step, close-step, destroyed-step, run_in_loop-step, start-step,
  stop-step, half_close-step, shut-step,
}
use chaonet.Connection.Bytes.{send-step, write-step, take-step, read-step}

not_up :
    (c : Connection) (b : Bool) (message : List ℕ) (w : Write)
    → same_state c.state connected ≡ false
    → handed c (sends b message w) ≡ []
not_up c true message w down = rw down
not_up c false message w down = refl

started :
    (c : Connection) (b : Bool) (message : List ℕ) (w : Write)
    → Ready c
    → same_state c.state connected ≡ true
    → c.output.writer_index + length (handed c (sends b message w)) ≤ max_size
    → ResultOf c
        (sends b message w)
        (run_in_loop b c (Functor.sends message) (send_in_loop c message w))
unfolding run_in_loop
started c true message w r up fits =
    let all : handed c (sends true message w) ≡ message = rw up in
    send-step c r (sends true message w) message w all (omega (arith, fits, ap length all))
started c false message w r up fits =
    inl
      ((c, queue (Functor.sends message) ∷ []), refl, same c (sends false message w) r refl _ refl)

-- Every event either ends with a ready connection, every byte in order and the state moved on, or stops
-- the program at a fault.
pub step-ResultOf :
    (c : Connection) (e : Event)
    → Ready c
    → c.output.writer_index + length (handed c e) ≤ max_size
    → c.input.writer_index + length (arrived e) ≤ max_size
    → ResultOf c e (step c e)
unfolding step
step-ResultOf c established r f g = established-step c r
step-ResultOf c destroyed r f g = destroyed-step c r
step-ResultOf c hung_up r f g = close-step c r hung_up refl refl
step-ResultOf c errored r f g =
    unfold handle_error in inl ((c, logs_error ∷ []), refl, same c errored r refl _ refl)
step-ResultOf c (sends b message w) r f g =
    unfold send in
    elim (Bool-cases (same_state c.state connected)) [
      | inl up ↦ rw up (started c b message w r up f)
      | inr down ↦
          rw down
            (inl ((c, []), refl, same c (sends b message w) r (not_up c b message w down) [] refl))
    ]
step-ResultOf c (runs_send message w) r f g = send-step c r (runs_send message w) message w refl f
step-ResultOf c (writable w) r f g = write-step c r w
step-ResultOf c (readable a) r f g = read-step c r a g
step-ResultOf c (takes n) r f g = take-step c r n
step-ResultOf c (shuts b) r f g = shut-step c r b
step-ResultOf c (starts b) r f g =
    unfold start_read in
    run_in_loop-step c r (starts b) c starts_read b _ (same c (starts b) r refl _ refl)
      (start-step c r (starts b) refl)
step-ResultOf c (stops b) r f g =
    unfold stop_read in
    run_in_loop-step c r (stops b) c stops_read b _ (same c (stops b) r refl _ refl)
      (stop-step c r (stops b) refl)
step-ResultOf c runs_shutdown r f g = half_close-step c r runs_shutdown refl
step-ResultOf c runs_start r f g = start-step c r runs_start refl
step-ResultOf c runs_stop r f g = stop-step c r runs_stop refl

-- The totals that a sequence of events can add to the two buffers.
abbrev pub total_sent : List Event → ℕ
total_sent [] = 0
total_sent (sends b message w ∷ es) = length message + total_sent es
total_sent (runs_send message w ∷ es) = length message + total_sent es
total_sent (_ ∷ es) = total_sent es

abbrev pub total_arrived : List Event → ℕ
total_arrived [] = 0
total_arrived (readable (received bytes) ∷ es) = length bytes + total_arrived es
total_arrived (_ ∷ es) = total_arrived es

-- What sendInLoop was given, in the order in which it ran.
abbrev pub all_handed : Connection → List Event → List ℕ
all_handed c [] = []
all_handed c (e ∷ es) = handed c e ++ elim (step c e) [ ok r ↦ all_handed r.0 es | err f ↦ [] ]

pub record Ran (c : Connection) (es : List Event) (r : Connection × List Action) : Type 0 where
  pub ready : Ready r.0
  pub stream : wired r.1 ++ contents r.0.output ≡ contents c.output ++ all_handed c es
  pub onward : rank c.state ≤ rank r.0.state

-- Every event is allowed in the connection that it finds.
abbrev pub all_allowed : Connection → List Event → Bool
all_allowed c [] = true
all_allowed c (e ∷ es) =
    allowed c e && elim (step c e) [ ok r ↦ all_allowed r.0 es | err f ↦ false ]
