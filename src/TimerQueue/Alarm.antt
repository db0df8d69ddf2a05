-- ===== src/TimerQueue/Alarm.antt =====
-- The delay that timerfd is set to.
use chaonet.Common.{
  ℕ, ◌+◌, ◌-◌, ◌*◌, ◌/◌, ◌≤◌, ◌<◌, inl, inr, Bool-cases, ltb, ltb→lt, ltb-eq-false, if_true,
  if_false, arith,
}
use chaonet.TimerQueue.{how_much_time_from_now}

-- The delay is one that timerfd_settime(2) takes, below a second of nanoseconds, and at least 100
-- microseconds. It ends less than a microsecond before `when`, and no more than a microsecond after it
-- if `when` is 101 microseconds away.
pub how_much_time_from_now_lem :
    (now when : ℕ)
    → (let (sec, nsec) = how_much_time_from_now now when in
        (nsec < 1000000000)
        × (100000 ≤ sec * 1000000000 + nsec)
        × (when < now + (sec * 1000000000 + nsec) + 1000)
        × (now + 101000 ≤ when → now + (sec * 1000000000 + nsec) < when + 1000))
unfolding how_much_time_from_now
how_much_time_from_now_lem now when = elim (Bool-cases (ltb (when / 1000 - now / 1000) 100)) [
  | inl y ↦
      let less = ltb→lt _ _ y in
      let m = if_true (ltb (when / 1000 - now / 1000) 100) 100 (when / 1000 - now / 1000) y in
      (
        omega (arith, m),
        omega (arith, m),
        omega (arith, m, less),
        λ far. omega (arith, m, less, far),
      )
  | inr n ↦
      let more = ltb-eq-false _ _ n in
      let m = if_false (ltb (when / 1000 - now / 1000) 100) 100 (when / 1000 - now / 1000) n in
      (
        omega (arith, m),
        omega (arith, m, more),
        omega (arith, m, more),
        λ far. omega (arith, m, more, far),
      )
]
