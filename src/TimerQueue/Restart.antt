-- ===== src/TimerQueue/Restart.antt =====
-- reset puts the repeating timers back and sets timerfd.
use chaonet.Common.{
  ℕ, ◌≢◌, ◌⊎◌, Option, or_true, insert_pair_cases, same_self, ◌+◌, ◌*◌, ◌≡◌, inl, inr, Bool, true,
  false, not, ◌&&◌, ◌||◌, List, [], ◌∷◌, some, arith, refl, sym, ◌∙◌, ap, subst, Result, ok, ◌>>=◌,
  ◌==◌, eq→==, ==_iff, Bool-cases, if_true, if_false, update, update_self, update_ne, Pair, has,
  has-insert_self, has-insert_keep,
}
use chaonet.TimerQueue.{
  Timer, TimerQueue, active_timer, inserted, restart, restart_all, reset, next_expire,
  how_much_time_from_now, reset_timerfd,
}
use chaonet.TimerQueue.Inv.{Inv, Agree-insert, Agree-update}
use chaonet.TimerQueue.Steps.{insert_run}
use chaonet.TimerQueue.Expired.{has_address, Held, Held-insert}

-- An entry of a timer that is started again: it expired, it repeats, it was not cancelled, and its
-- time is that of the call and its interval.
abbrev pub Again : TimerQueue → List Pair → ℕ → Pair → Type 0
Again q es now r =
    (has_address r.1 es ≡ true)
    × ((q.objects r.1).repeat ≡ true)
    × (has (active_timer q r.1) q.canceling ≡ false)
    × (r.0 ≡ now + (q.objects r.1).interval * 1000)

record Restarted (q : TimerQueue) (es : List Pair) (now : ℕ) (o : Result TimerQueue) : Type 0 where
  queue : TimerQueue
  run : o ≡ ok queue
  inv : Inv queue
  kept : (r : Pair) → has r q.timers ≡ true → has r queue.timers ≡ true
  again :
      (p : ℕ)
      → has_address p es ≡ true
      → (q.objects p).repeat ≡ true
      → has (active_timer q p) q.canceling ≡ false
      → has (now + (q.objects p).interval * 1000, p) queue.timers ≡ true
  only : (r : Pair) → has r queue.timers ≡ true → (has r q.timers ≡ true) ⊎ Again q es now r
  flag : queue.calling_expired_timers ≡ q.calling_expired_timers

-- The queue with the timer at `p` started again.
abbrev moved : TimerQueue → ℕ → ℕ → TimerQueue
moved q p now = record q { objects = update q.objects p (restart now (q.objects p)) }

abbrev runs_again : TimerQueue → ℕ → Bool
runs_again q p = (q.objects p).repeat && not (has (active_timer q p) q.canceling)

restart-expiration :
    (now : ℕ) (t : Timer) → t.repeat ≡ true → (restart now t).expiration ≡ now + t.interval * 1000
restart-expiration now t h = ap (λ (r : Timer). r.expiration) (if_true t.repeat _ _ h)

refused : {a b : Bool} → (a && not b) ≡ false → a ≡ true → b ≡ false → ⊥
refused h k l = ground arith

entered :
    (q : TimerQueue) (p now : ℕ)
    → (q.objects p).repeat ≡ true
    → has (now + (q.objects p).interval * 1000, p) (inserted (moved q p now) p).timers ≡ true
entered q p now h =
    subst (λ n. has (n, p) (inserted (moved q p now) p).timers ≡ true)
      (ap (λ (o : Timer). o.expiration) (update_self q.objects p (restart now (q.objects p)))
        ∙ restart-expiration now (q.objects p) h)
      (has-insert_self (((moved q p now).objects p).expiration, p) q.timers)

restart_all-Restarted :
    (q : TimerQueue) (es : List Pair) (now : ℕ)
    → Inv q
    → Held es q.active
    → Restarted q es now (restart_all q es now)
unfolding restart_all
restart_all-Restarted q [] now v held = record {
  queue = q;
  run = refl;
  inv = v;
  kept = λ r h. h;
  again = λ p h. absurd (cc (h));
  only = λ r h. inl h;
  flag = refl;
}
restart_all-Restarted q ((e, p) ∷ es) now v (absent, twin, held) =
    elim (Bool-cases (runs_again q p)) [
      | inl go ↦
          let v' : Inv (moved q p now) = Agree-update v p (restart now (q.objects p)) absent in
          let new = absent ((moved q p now).objects p).sequence in
          let w =
            restart_all-Restarted (inserted (moved q p now) p) es now (Agree-insert v' p new)
              (Held-insert es p ((moved q p now).objects p).sequence q.active twin held) in
          record {
            queue = w.queue;
            run =
                if_true (runs_again q p) _ _ go
                ∙ ap (λ o. o >>= λ r. restart_all r.1 es now) (insert_run (moved q p now) p v' new)
                ∙ w.run;
            inv = w.inv;
            kept = λ r h. w.kept r (has-insert_keep r _ q.timers h);
            again = λ x h repeats free. elim (Bool-cases (p == x)) [
              | inl here ↦
                  subst (λ z. has (now + (q.objects z).interval * 1000, z) w.queue.timers ≡ true)
                    ((==_iff p x).0 here)
                    (w.kept (now + (q.objects p).interval * 1000, p)
                      (entered q p now (
                        subst (λ z. (q.objects z).repeat ≡ true) (sym ((==_iff p x).0 here))
                          repeats)))
              | inr far ↦
                  let other : (moved q p now).objects x ≡ q.objects x =
                    update_ne q.objects p _ x (λ z. cc (far, eq→== p x (sym z))) in
                  ap (λ (o : Timer). has (now + o.interval * 1000, x) w.queue.timers) (sym other)
                  ∙ w.again x (sym (ap (λ b. b || has_address x es) far) ∙ h)
                      (ap (λ (o : Timer). o.repeat) other ∙ repeats)
                      (ap (λ (o : Timer). has (x, o.sequence) q.canceling) other ∙ free)
            ];
            only = λ r h. elim (w.only r h) [
              | inl there ↦
                  elim (insert_pair_cases r (((moved q p now).objects p).expiration, p) q.timers
                    there) [ inl new ↦ inr (self_again e r new go) | inr old ↦ inl old ]
              | inr a ↦ inr (other_again e r twin a)
            ];
            flag = w.flag;
          }
      | inr stops ↦
          let w = restart_all-Restarted q es now v held in
          record {
            queue = w.queue;
            run = if_false (runs_again q p) _ _ stops ∙ w.run;
            inv = w.inv;
            kept = w.kept;
            again = λ x h repeats free. elim (Bool-cases (p == x)) [
              | inl here ↦ absurd (
                  refused (subst (λ z. runs_again q z ≡ false) ((==_iff p x).0 here) stops) repeats
                    free)
              | inr far ↦ w.again x (sym (ap (λ b. b || has_address x es) far) ∙ h) repeats free
            ];
            only = λ r h. elim (w.only r h) [
              | inl there ↦ inl there
              | inr (x, repeats, free, time) ↦
                  inr (ap (λ b. p == r.1 || b) x ∙ or_true (p == r.1), repeats, free, time)
            ];
            flag = w.flag;
          }
    ]
  where
    both : {a b : Bool} → (a && not b) ≡ true → (a ≡ true) × (b ≡ false)
    both h = ground arith

    self_again :
        (e : ℕ) (r : Pair)
        → r ≡ (((moved q p now).objects p).expiration, p)
        → runs_again q p ≡ true
        → Again q ((e, p) ∷ es) now r
    self_again e r new go =
        let (repeats, free) = both go in
        subst (Again q ((e, p) ∷ es) now) (sym new) (
          ap (λ b. b || has_address p es) (eq→== p p refl),
          repeats,
          free,
          ap (λ (o : Timer). o.expiration) (update_self q.objects p (restart now (q.objects p)))
              ∙ restart-expiration now (q.objects p) repeats,
        )

    other_again :
        (e : ℕ) (r : Pair)
        → has_address p es ≡ false
        → Again (inserted (moved q p now) p) es now r
        → Again q ((e, p) ∷ es) now r
    other_again e r twin (x, repeats, free, time) =
        let far : r.1 ≢ p = λ z. cc (x, twin, ap (λ z. has_address z es) z) in
        let other : (moved q p now).objects r.1 ≡ q.objects r.1 = update_ne q.objects p _ r.1 far in
        (
          ap (λ b. p == r.1 || b) x ∙ or_true (p == r.1),
          ap (λ (o : Timer). o.repeat) (sym other) ∙ repeats,
          ap (λ (o : Timer). has (r.1, o.sequence) q.canceling) (sym other) ∙ free,
          time ∙ ap (λ (o : Timer). now + o.interval * 1000) other,
        )

-- What timerfd is set to by the first of the timers.
abbrev alarm_at : ℕ → (ℕ → Timer) → List Pair → Option (ℕ × ℕ)
alarm_at clock objects ts =
    some (how_much_time_from_now clock (elim ts [ [] ↦ 0 | ◌∷◌ e es ↦ (objects e.1).expiration ]))

-- What reset comes to.
pub record Reset (clock : ℕ) (q : TimerQueue) (es : List Pair) (now : ℕ) (o : Result TimerQueue)
    : Type 0 where
  pub queue : TimerQueue
  pub run : o ≡ ok queue
  pub inv : Inv queue
  pub kept : (r : Pair) → has r q.timers ≡ true → has r queue.timers ≡ true
  pub again :
      (p : ℕ)
      → has_address p es ≡ true
      → (q.objects p).repeat ≡ true
      → has (active_timer q p) q.canceling ≡ false
      → has (now + (q.objects p).interval * 1000, p) queue.timers ≡ true
  pub only : (r : Pair) → has r queue.timers ≡ true → (has r q.timers ≡ true) ⊎ Again q es now r
  pub flag : queue.calling_expired_timers ≡ q.calling_expired_timers
  pub alarm_none : queue.timers ≡ [] → queue.alarm ≡ some (how_much_time_from_now clock 0)
  pub alarm_first :
      (e p : ℕ) (rest : List Pair)
      → queue.timers ≡ (e, p) ∷ rest
      → queue.alarm ≡ some (how_much_time_from_now clock e)

-- reset fails no assertion, keeps the timers of the queue and the invariant, puts every expired timer
-- that repeats and was not cancelled back with its interval added to `now`, and no other, and sets
-- timerfd for the first timer, or for the epoch if there is none.
pub reset-Reset :
    (clock : ℕ) (q : TimerQueue) (es : List Pair) (now : ℕ)
    → Inv q
    → Held es q.active
    → Reset clock q es now (reset clock q es now)
unfolding reset
reset-Reset clock q es now v held =
    let w = restart_all-Restarted q es now v held in
    record {
      queue = reset_timerfd clock (next_expire w.queue) w.queue;
      run = ap (λ o. o >>= λ q'. ok (reset_timerfd clock (next_expire q') q')) w.run;
      inv = w.inv;
      kept = w.kept;
      again = w.again;
      only = w.only;
      flag = w.flag;
      alarm_none = λ h. ap (alarm_at clock w.queue.objects) h;
      alarm_first = λ e p rest h.
          let there : has (e, p) w.queue.timers ≡ true =
            ap (has (e, p)) h ∙ ap (λ b. b || has (e, p) rest) (same_self (e, p)) in
          ap (alarm_at clock w.queue.objects) h
          ∙ ap (λ n. some (how_much_time_from_now clock n)) (sym (w.inv.entry e p there).0);
    }
