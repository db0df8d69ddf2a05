-- ===== src/TimerQueue/Calls.antt =====
-- What the callbacks of expired timers do to the queue (chaonet/src/TimerQueue.cpp).
use chaonet.Common.{
  ℕ, arith, ◌||◌, ◌==◌, ==_iff, Bool-cases, same, same-eq, update_ne, has-insert_self,
  has-insert_keep, ◌≡◌, ◌⊎◌, inl, inr, Bool, true, false, List, [], ◌∷◌, refl, sym, ◌∙◌, ap, Result,
  ok, ◌>>=◌, update, Pair, has, is_followed, insert_pair, erase_pair, erase_pair_cases,
}
use chaonet.TimerQueue.{
  TimerQueue, active_timer, cancel_in_loop, Call, adds, cancels, run_call, run_calls,
}
use chaonet.TimerQueue.Inv.{Inv, Absent, Agree-update}
use chaonet.TimerQueue.Steps.{
  add_timer_in_loop-Added, without, Cancelled, taken, aborts, put_down, ignored,
  cancel_in_loop-Cancelled,
}
use chaonet.TimerQueue.Expired.{has_address, Held, Held-more}

-- A new timer has an address that no timer has, also none of the expired ones, and a cancelled timer is
-- not the last of activeTimers_.
abbrev pub CallOk : List Pair → TimerQueue → Call → Type 0
CallOk due q (adds clock p t) = Absent p q.active × (has_address p due ≡ false)
CallOk due q (cancels id) = has id q.active ≡ true → is_followed id q.active ≡ true

abbrev pub CallsOk : List Pair → TimerQueue → List Call → Type 0
CallsOk due q [] = Unit {0}
CallsOk due q (c ∷ cs) =
    CallOk due q c × ((q' : TimerQueue) → run_call q c ≡ ok q' → CallsOk due q' cs)

-- Whether one of the calls cancels that timer.
abbrev pub calls_cancel : Pair → List Call → Bool
calls_cancel id [] = false
calls_cancel id (adds clock p t ∷ cs) = calls_cancel id cs
calls_cancel id (cancels id' ∷ cs) = same id id' || calls_cancel id cs

-- Expired timers keep their objects, and a cancelled one is noted.
pub record Called (due : List Pair) (q : TimerQueue) (cs : List Call) (o : Result TimerQueue)
    : Type 0 where
  pub queue : TimerQueue
  pub run : o ≡ ok queue
  pub inv : Inv queue
  pub held : Held due queue.active
  pub flag : queue.calling_expired_timers ≡ true
  pub objects : (p : ℕ) → has_address p due ≡ true → queue.objects p ≡ q.objects p
  pub grows : (id : Pair) → has id q.canceling ≡ true → has id queue.canceling ≡ true
  pub remembered :
      (id : Pair)
      → has_address id.0 due ≡ true
      → calls_cancel id cs ≡ true
      → has id queue.canceling ≡ true

pub Held-absent :
    (es active : List Pair) (p s : ℕ)
    → Held es active
    → has_address p es ≡ true
    → has (p, s) active ≡ false
Held-absent [] active p s held h = absurd (cc (h))
Held-absent ((e, x) ∷ es) active p s (absent, twin, held) h = elim (Bool-cases (x == p)) [
  | inl y ↦ ap (λ z. has (z, s) active) (sym ((==_iff x p).0 y)) ∙ absent s
  | inr n ↦ Held-absent es active p s held (sym (ap (λ b. b || has_address p es) n) ∙ h)
]

only_call : (id id' : Pair) → calls_cancel id (cancels id' ∷ []) ≡ true → id ≡ id'
only_call id id' h = same-eq id id' (alone h)
  where
    alone : {b : Bool} → (b || false) ≡ true → b ≡ true
    alone h = ground arith

run_call-Called :
    (due : List Pair) (q : TimerQueue) (c : Call)
    → Inv q
    → Held due q.active
    → q.calling_expired_timers ≡ true
    → CallOk due q c
    → Called due q (c ∷ []) (run_call q c)
unfolding run_call
run_call-Called due q (adds clock p t) v held calling (absent, other) =
    let q1 = record q { objects = update q.objects p t } in
    let w = add_timer_in_loop-Added clock q1 p (Agree-update v p t absent) absent in
    record {
      queue = w.queue;
      run = w.run;
      inv = w.inv;
      held = Held-more due q.active w.queue.active (λ r y. joins r q1 (w.actives r y)) held;
      flag = w.flag ∙ calling;
      objects = λ x h.
          ap (λ f. f x) w.objects
          ∙ update_ne q.objects p t x (λ z. cc (h, other, ap (λ n. has_address n due) z));
      grows = λ id h. ap (has id) w.canceling ∙ h;
      remembered = λ id x h. absurd (cc (h));
    }
  where
    joins :
        (r : Pair) (q1 : TimerQueue)
        → (r ≡ active_timer q1 p) ⊎ (has r q.active ≡ true)
        → (has_address r.0 due ≡ false) ⊎ (has r q.active ≡ true)
    joins r q1 (inl e) = inl (ap (λ z. has_address z.0 due) e ∙ other)
    joins r q1 (inr y) = inr y
run_call-Called due q (cancels id) v held calling followed =
    by (cancel_in_loop q id) (cancel_in_loop-Cancelled q id v)
  where
    by : (o : Result TimerQueue) → Cancelled q id o → Called due q (cancels id ∷ []) o
    by _ (taken there next inv gone) = record {
      queue = without q id;
      run = refl;
      inv = inv;
      held =
          Held-more due q.active (erase_pair id q.active)
            (λ r y. inr (erase_pair_cases r id q.active v.active_sorted y).1) held;
      flag = calling;
      objects = λ p h. refl;
      grows = λ r h. h;
      remembered = λ r x h.
          let e = only_call r id h in
          let away =
            Held-absent due q.active id.0 id.1 held
              (ap (λ (z : Pair). has_address z.0 due) (sym e) ∙ x) in
          absurd (cc (there, away));
    }
    by _ (aborts there last) = absurd (cc (followed there, last))
    by _ (put_down away on inv) = record {
      queue = record q { canceling = insert_pair id q.canceling };
      run = refl;
      inv = inv;
      held = held;
      flag = calling;
      objects = λ p h. refl;
      grows = λ r h. has-insert_keep r id q.canceling h;
      remembered = λ r x h.
          ap (λ z. has z (insert_pair id q.canceling)) (only_call r id h)
          ∙ has-insert_self id q.canceling;
    }
    by _ (ignored away quiet) = absurd (cc (calling, quiet))

calls_cancel-cons :
    (id : Pair) (c : Call) (cs : List Call)
    → calls_cancel id (c ∷ cs) ≡ true
    → (calls_cancel id (c ∷ []) ≡ true) ⊎ (calls_cancel id cs ≡ true)
calls_cancel-cons id (adds clock p t) cs h = inr h
calls_cancel-cons id (cancels id') cs h = elim (Bool-cases (same id id')) [
  | inl y ↦ inl (ap (λ b. b || false) y)
  | inr n ↦ inr (sym (ap (λ b. b || calls_cancel id cs) n) ∙ h)
]

pub run_calls-Called :
    (due : List Pair) (q : TimerQueue) (cs : List Call)
    → Inv q
    → Held due q.active
    → q.calling_expired_timers ≡ true
    → CallsOk due q cs
    → Called due q cs (run_calls q cs)
unfolding run_calls
run_calls-Called due q [] v held calling fine = record {
  queue = q;
  run = refl;
  inv = v;
  held = held;
  flag = calling;
  objects = λ p h. refl;
  grows = λ id h. h;
  remembered = λ id x h. absurd (cc (h));
}
run_calls-Called due q (c ∷ cs) v held calling (fine, later) =
    let w = run_call-Called due q c v held calling fine in
    let w' = run_calls-Called due w.queue cs w.inv w.held w.flag (later w.queue w.run) in
    record {
      queue = w'.queue;
      run = ap (λ o. o >>= λ q'. run_calls q' cs) w.run ∙ w'.run;
      inv = w'.inv;
      held = w'.held;
      flag = w'.flag;
      objects = λ p h. w'.objects p h ∙ w.objects p h;
      grows = λ id h. w'.grows id (w.grows id h);
      remembered = λ id x h. elim (calls_cancel-cons id c cs h) [
        | inl now ↦ w'.grows id (w.remembered id x now)
        | inr after ↦ w'.remembered id x after
      ];
    }
