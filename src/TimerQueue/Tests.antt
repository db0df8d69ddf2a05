-- ===== src/TimerQueue/Tests.antt =====
-- A queue with a repeating timer, due, and a later one.
use chaonet.Common.{
  arith, ◌≤◌, ◌<◌, subst, sym, ap, ◌⊎◌, inl, inr, Bool, Bool-cases, ◌||◌, same, same-eq, ℕ, ◌+◌,
  ◌*◌, ◌≡◌, refl, true, false, List, [], ◌∷◌, ok, Pair, has, ◌==◌, if◌then◌else◌,
}
use chaonet.TimerQueue.{
  Timer, TimerQueue, new_timer_queue, add_timer_in_loop, cancel_in_loop, get_expired, reset,
  how_much_time_from_now, Call, cancels, handle_read, erase_active,
}
use chaonet.TimerQueue.Inv.{Inv}
use chaonet.TimerQueue.Steps.{Added, add_timer_in_loop-Added, Cancelled, cancel_in_loop-Cancelled}
use chaonet.TimerQueue.Expired.{Expired, get_expired-Expired}
use chaonet.TimerQueue.Restart.{Reset, reset-Reset}
use chaonet.TimerQueue.Alarm.{how_much_time_from_now_lem}
use chaonet.TimerQueue.Fire.{CallsAt, Handled, handle_read-Handled}

-- Due at 5 ms; every 2 ms.
abbrev ticks : Timer
ticks = record { expiration = 5000000; interval = 2000; repeat = true; sequence = 0 }

-- Due at 9 ms.
abbrev once : Timer
once = record { expiration = 9000000; interval = 0; repeat = false; sequence = 1 }

abbrev objects : ℕ → Timer
objects p = if p == 100 then ticks else once

abbrev two : TimerQueue
two = record (new_timer_queue objects) {
  timers = (5000000, 100) ∷ (9000000, 200) ∷ [];
  active = (100, 0) ∷ (200, 1) ∷ [];
}

one_of : (r a b : Pair) → has r (a ∷ b ∷ []) ≡ true → (r ≡ a) ⊎ (r ≡ b)
one_of r a b h = elim (Bool-cases (same r a)) [
  | inl y ↦ inl (same-eq r a y)
  | inr n ↦ elim (Bool-cases (same r b)) [
    | inl y ↦ inr (same-eq r b y)
    | inr m ↦ absurd (cc (sym h, ap (λ t. t || (same r b || false)) n, ap (λ t. t || false) m))
  ]
]

abbrev Entered : Pair → Type 0
Entered r = (r.0 ≡ (objects r.1).expiration) × (has (r.1, (objects r.1).sequence) two.active ≡ true)

abbrev Listed : Pair → Type 0
Listed r = (r.1 ≡ (objects r.0).sequence) × (has ((objects r.0).expiration, r.0) two.timers ≡ true)

two-Inv : Inv two
two-Inv = record {
  sizes = refl;
  sorted = ((refl, tt), (tt, tt));
  active_sorted = ((refl, tt), (tt, tt));
  entry = λ e p h. elim (one_of (e, p) (5000000, 100) (9000000, 200) h) [
    | inl y ↦ subst Entered (sym y) (refl, refl)
    | inr y ↦ subst Entered (sym y) (refl, refl)
  ];
  timer = λ p s h. elim (one_of (p, s) (100, 0) (200, 1) h) [
    | inl y ↦ subst Listed (sym y) (refl, refl)
    | inr y ↦ subst Listed (sym y) (refl, refl)
  ];
}

add_timer_in_loop-Added_example :
    Added 1000000
      (new_timer_queue objects)
      100
      (add_timer_in_loop 1000000 (new_timer_queue objects) 100)
add_timer_in_loop-Added_example =
    add_timer_in_loop-Added 1000000 (new_timer_queue objects) 100
      (record {
        sizes = refl;
        sorted = tt;
        active_sorted = tt;
        entry = λ e p h. absurd (cc (h));
        timer = λ p s h. absurd (cc (h));
      })
      (λ s. refl)

cancel_in_loop-Cancelled_example : Cancelled two (100, 0) (cancel_in_loop two (100, 0))
cancel_in_loop-Cancelled_example = cancel_in_loop-Cancelled two (100, 0) two-Inv

get_expired-Expired_example : Expired two 6000000 (get_expired two 6000000)
get_expired-Expired_example = get_expired-Expired two 6000000 two-Inv (λ p. refl)

-- The first timer was taken out.
abbrev second : TimerQueue
second = record two { timers = (9000000, 200) ∷ []; active = (200, 1) ∷ [] }

only_one : (r a : Pair) → has r (a ∷ []) ≡ true → r ≡ a
only_one r a h = same-eq r a (alone h)
  where
    alone : {b : Bool} → (b || false) ≡ true → b ≡ true
    alone h = ground arith

second-Inv : Inv second
second-Inv = record {
  sizes = refl;
  sorted = (tt, tt);
  active_sorted = (tt, tt);
  entry = λ e p h.
      subst
        (λ (r : Pair).
          (r.0 ≡ (objects r.1).expiration)
          × (has (r.1, (objects r.1).sequence) second.active ≡ true))
        (sym (only_one (e, p) (9000000, 200) h)) (refl, refl);
  timer = λ p s h.
      subst
        (λ (r : Pair).
          (r.1 ≡ (objects r.0).sequence)
          × (has ((objects r.0).expiration, r.0) second.timers ≡ true))
        (sym (only_one (p, s) (200, 1) h)) (refl, refl);
}

reset-Reset_example :
    Reset 6000000 second
      ((5000000, 100) ∷ [])
      6000000
      (reset 6000000 second ((5000000, 100) ∷ []) 6000000)
reset-Reset_example =
    reset-Reset 6000000 second ((5000000, 100) ∷ []) 6000000 second-Inv (λ s. refl, refl, tt)

due_first :
    get_expired two 6000000
    ≡ ok ((5000000, 100) ∷ [], record two { timers = (9000000, 200) ∷ []; active = (200, 1) ∷ [] })
unfolding get_expired erase_active
due_first = refl

-- The callback cancels its own timer.
abbrev script : ℕ → List Call
script p = cancels (100, 0) ∷ []

handle_read-Handled_example :
    Handled 6000000 two 6000000 script (handle_read 6000000 two 6000000 script)
handle_read-Handled_example =
    handle_read-Handled 6000000 two 6000000 script two-Inv (λ p. refl)
      (subst (λ o. CallsAt o script) (sym due_first) ((λ h. refl, λ q' h. tt)))

how_much_time_from_now_lem_example :
    (let (sec, nsec) = how_much_time_from_now 1000000 5000000 in
      (nsec < 1000000000)
      × (100000 ≤ sec * 1000000000 + nsec)
      × (5000000 < 1000000 + (sec * 1000000000 + nsec) + 1000)
      × (1000000 + 101000 ≤ 5000000 → 1000000 + (sec * 1000000000 + nsec) < 5000000 + 1000))
how_much_time_from_now_lem_example = how_much_time_from_now_lem 1000000 5000000
