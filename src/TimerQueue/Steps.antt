-- ===== src/TimerQueue/Steps.antt =====
-- Adding and cancelling timers.
use chaonet.Common.{
  ℕ, ◌≤◌, ◌<◌, ◌||◌, [], ◌∷◌, arith, lt→ltb, le→ltb-eq-false, before, same, same-eq, same_self,
  Above-before-has, ◌≡◌, ◌⊎◌, inl, inr, Bool, true, false, not, List, some, refl, sym, ◌∙◌, ap,
  Result, ok, err, assert_failed, assert_passes, assert_fails, ◌>>=◌, eq→==, Bool-cases,
  if◌then◌else◌, if_true, if_false, length, Pair, subst, Sorted, has, insert_pair, erase_pair,
  is_followed, insert_pair_cases, has-insert_self, has-insert_keep, erase_pair_cases,
}
use chaonet.TimerQueue.{
  TimerQueue, active_timer, sizes_agree, is_earlier, inserted, insert, erased, cancel_in_loop,
  how_much_time_from_now, reset_timerfd, add_timer_in_loop,
}
use chaonet.TimerQueue.Inv.{Inv, Absent, absent-entry, Agree-insert, Agree-erase}

not-false : (b : Bool) → b ≡ false → not b ≡ true
not-false b h = rw h refl

pub sizes : (q : TimerQueue) → Inv q → sizes_agree q ≡ true
sizes q v = eq→== (length q.timers) (length q.active) v.sizes

pub insert_run :
    (q : TimerQueue) (p : ℕ)
    → Inv q
    → has (active_timer q p) q.active ≡ false
    → insert q p ≡ ok (is_earlier (q.objects p).expiration q.timers, inserted q p)
unfolding insert
insert_run q p v h =
    assert_passes (sizes_agree q) _ (sizes q v)
    ∙ assert_passes (not (has ((q.objects p).expiration, p) q.timers)) _
        (not-false _ (absent-entry v p h))
    ∙ assert_passes (not (has (active_timer q p) q.active)) _ (not-false _ h)
    ∙ assert_passes (sizes_agree (inserted q p)) _ (sizes (inserted q p) (Agree-insert v p h))

before-le : (p r : Pair) → before p r ≡ true → p.0 ≤ r.0
before-le p r h = ground arith

is_earlier-first :
    (when : ℕ) (es : List Pair)
    → ((r : Pair) → has r es ≡ true → when < r.0)
    → is_earlier when es ≡ true
is_earlier-first when [] f = refl
is_earlier-first when (e ∷ es) f = lt→ltb when e.0 (f e (ap (λ b. b || has e es) (same_self e)))

is_earlier-later :
    (when : ℕ) (r : Pair) (es : List Pair)
    → Sorted es
    → has r es ≡ true
    → r.0 ≤ when
    → is_earlier when es ≡ false
is_earlier-later when r [] s h l = absurd (cc (h))
is_earlier-later when r (e ∷ es) (above, s) h l = elim (Bool-cases (same r e)) [
  | inl y ↦ le→ltb-eq-false when e.0 (omega (arith, ap (λ x. x.0) (same-eq r e y), l))
  | inr n ↦
      let front = Above-before-has e r es above (sym (ap (λ b. b || has r es) n) ∙ h) in
      le→ltb-eq-false when e.0 (omega (arith, before-le e r front, l))
]

pub record Added (now : ℕ) (q : TimerQueue) (p : ℕ) (o : Result TimerQueue) : Type 0 where
  pub queue : TimerQueue
  pub run : o ≡ ok queue
  pub inv : Inv queue
  pub entered : has ((q.objects p).expiration, p) queue.timers ≡ true
  pub kept : (r : Pair) → has r q.timers ≡ true → has r queue.timers ≡ true
  pub actives :
      (r : Pair) → has r queue.active ≡ true → (r ≡ active_timer q p) ⊎ (has r q.active ≡ true)
  pub objects : queue.objects ≡ q.objects
  pub canceling : queue.canceling ≡ q.canceling
  pub flag : queue.calling_expired_timers ≡ q.calling_expired_timers
  pub first :
      ((r : Pair) → has r q.timers ≡ true → (q.objects p).expiration < r.0)
      → queue.alarm ≡ some (how_much_time_from_now now (q.objects p).expiration)
  pub later :
      (r : Pair) → has r q.timers ≡ true → r.0 ≤ (q.objects p).expiration → queue.alarm ≡ q.alarm

-- A timer whose address is not in the queue is added without a failed assertion, and the invariant is
-- kept. timerfd is set for the new timer if that is earlier than all others, and left alone if some
-- timer is not later than it.
pub add_timer_in_loop-Added :
    (now : ℕ) (q : TimerQueue) (p : ℕ)
    → Inv q
    → Absent p q.active
    → Added now q p (add_timer_in_loop now q p)
unfolding add_timer_in_loop
add_timer_in_loop-Added now q p v absent = record {
  queue = queue;
  run = ap (λ o. o >>= finish) (insert_run q p v new);
  inv = by_alarm (λ t. Inv t) (Agree-insert v p new) (Agree-insert v p new);
  entered =
      by_alarm (λ t. has entry t.timers ≡ true) (has-insert_self entry q.timers)
        (has-insert_self entry q.timers);
  kept =
      by_alarm (λ t. (r : Pair) → has r q.timers ≡ true → has r t.timers ≡ true)
        (λ r. has-insert_keep r entry q.timers) (λ r. has-insert_keep r entry q.timers);
  actives =
      by_alarm
        (λ t. (r : Pair) → has r t.active ≡ true → (r ≡ active_timer q p) ⊎ (has r q.active ≡ true))
        (λ r. insert_pair_cases r (active_timer q p) q.active)
        (λ r. insert_pair_cases r (active_timer q p) q.active);
  objects = by_alarm (λ t. t.objects ≡ q.objects) refl refl;
  canceling = by_alarm (λ t. t.canceling ≡ q.canceling) refl refl;
  flag = by_alarm (λ t. t.calling_expired_timers ≡ q.calling_expired_timers) refl refl;
  first = λ f. ap (λ b. (after b).alarm) (is_earlier-first (q.objects p).expiration q.timers f);
  later = λ r h l.
      ap (λ b. (after b).alarm) (is_earlier-later (q.objects p).expiration r q.timers v.sorted h l);
}
  where
    new : has (active_timer q p) q.active ≡ false
    new = absent (q.objects p).sequence

    entry : Pair
    entry = ((q.objects p).expiration, p)

    after : Bool → TimerQueue
    after b = if b then reset_timerfd now (q.objects p).expiration (inserted q p) else inserted q p

    finish : Bool × TimerQueue → Result TimerQueue
    finish r = ok (if r.0 then reset_timerfd now (r.1.objects p).expiration r.1 else r.1)

    queue : TimerQueue
    queue = after (is_earlier (q.objects p).expiration q.timers)

    both :
        (P : TimerQueue → Type 0) (b : Bool)
        → P (reset_timerfd now (q.objects p).expiration (inserted q p))
        → P (inserted q p)
        → P (after b)
    both P true x y = x
    both P false x y = y

    by_alarm :
        (P : TimerQueue → Type 0)
        → P (reset_timerfd now (q.objects p).expiration (inserted q p))
        → P (inserted q p)
        → P queue
    by_alarm P x y = both P (is_earlier (q.objects p).expiration q.timers) x y

-- Both sets without a timer.
abbrev pub without : TimerQueue → Pair → TimerQueue
without q id = record q {
  timers = erase_pair ((q.objects id.0).expiration, id.0) q.timers;
  active = erase_pair id q.active;
}

-- What cancelInLoop comes to.
pub data Cancelled (q : TimerQueue) (id : Pair) : Result TimerQueue → Type 0 where
  taken :
      has id q.active ≡ true
      → is_followed id q.active ≡ true
      → Inv (without q id)
      → has id (without q id).active ≡ false
      → Cancelled q id (ok (without q id))
  aborts :
      has id q.active ≡ true → is_followed id q.active ≡ false → Cancelled q id (err assert_failed)
  put_down :
      has id q.active ≡ false
      → q.calling_expired_timers ≡ true
      → Inv (record q { canceling = insert_pair id q.canceling })
      → Cancelled q id (ok (record q { canceling = insert_pair id q.canceling }))
  ignored : has id q.active ≡ false → q.calling_expired_timers ≡ false → Cancelled q id (ok q)

erased_self : (r : Pair) (rs : List Pair) → Sorted rs → has r (erase_pair r rs) ≡ false
erased_self r rs s = elim (Bool-cases (has r (erase_pair r rs))) [
  | inl y ↦ absurd ((erase_pair_cases r r rs s y).0 refl)
  | inr n ↦ n
]

-- Of an active timer both entries are removed, but the assertion behind it fails if it is the last of
-- activeTimers_. One that is not active is noted while callbacks run, and ignored otherwise.
pub cancel_in_loop-Cancelled :
    (q : TimerQueue) (id : Pair) → Inv q → Cancelled q id (cancel_in_loop q id)
unfolding cancel_in_loop
cancel_in_loop-Cancelled q (p, s) v = elim (Bool-cases (has (p, s) q.active)) [
  | inl there ↦
      let (number, entered) = v.timer p s there in
      let inv : Inv (erased q (p, s)) =
        subst (λ n. Inv (erased q (p, n))) (sym number)
          (Agree-erase v p (ap (λ n. has (p, n) q.active) (sym number) ∙ there)) in
      let start =
        assert_passes (sizes_agree q) _ (sizes q v)
        ∙ if_true (has (p, s) q.active) _ _ there
        ∙ assert_passes (has ((q.objects p).expiration, p) q.timers) _ entered in
      elim (Bool-cases (is_followed (p, s) q.active)) [
        | inl next ↦
            subst (Cancelled q (p, s))
              (sym (
                start
                ∙ assert_passes (is_followed (p, s) q.active) _ next
                ∙ assert_passes (sizes_agree (erased q (p, s))) _ (sizes (erased q (p, s)) inv)))
              (taken there next inv (erased_self (p, s) q.active v.active_sorted))
        | inr last ↦
            subst (Cancelled q (p, s))
              (sym (start ∙ assert_fails (is_followed (p, s) q.active) _ last)) (aborts there last)
      ]
  | inr away ↦
      let start =
        assert_passes (sizes_agree q) _ (sizes q v)
        ∙ if_false (has (p, s) q.active) _ _ away
        ∙ assert_passes (sizes_agree q) _ (sizes q v) in
      elim (Bool-cases q.calling_expired_timers) [
        | inl calling ↦
            subst (Cancelled q (p, s)) (sym (start ∙ ap (λ b. ok (down b)) calling))
              (put_down away calling v)
        | inr quiet ↦
            subst (Cancelled q (p, s)) (sym (start ∙ ap (λ b. ok (down b)) quiet))
              (ignored away quiet)
      ]
]
  where
    down : Bool → TimerQueue
    down b = if b then record q { canceling = insert_pair (p, s) q.canceling } else q
