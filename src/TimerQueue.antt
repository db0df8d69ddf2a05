-- ===== src/TimerQueue.antt =====
-- chaonet/src/TimerQueue.cpp and Timer.cpp, chaonet/include/TimerQueue.h and Timer.h: the timers of a
-- loop. A timer's address is a number, 0 is the null pointer, and `objects` maps an address to its
-- timer. Times are counted in nanoseconds since the epoch, intervals in microseconds.
pub mod Inv
pub mod Steps
pub mod Expired
pub mod Restart
pub mod Calls
pub mod Fire
pub mod Alarm
mod Tests
use chaonet.Common.{
  ℕ, ◌+◌, ◌-◌, ◌*◌, ◌/◌, ◌%◌, Bool, true, false, not, ◌&&◌, ◌||◌, List, [], ◌∷◌, ◌++◌, Option, none,
  some, Result, ok, err, assert_failed, ◌>>=◌, ◌>>◌, assert, ◌==◌, ltb, leb, if◌then◌else◌, length,
  update, Pair, has, insert_pair, erase_pair, is_followed, split_at,
}

-- `repeat` is whether the interval, a double, is above zero.
pub record Timer : Type 0 where
  pub expiration : ℕ
  pub interval : ℕ
  pub repeat : Bool
  pub sequence : ℕ

-- `timers` pairs expirations and addresses, `active` and `canceling` addresses and sequence numbers.
-- `alarm` are the seconds and nanoseconds that timerfd_settime(2) was last given.
pub record TimerQueue : Type 0 where
  pub timers : List Pair
  pub active : List Pair
  pub canceling : List Pair
  pub calling_expired_timers : Bool
  pub objects : ℕ → Timer
  pub alarm : Option (ℕ × ℕ)

abbrev pub new_timer_queue : (ℕ → Timer) → TimerQueue
new_timer_queue objects = record {
  timers = [];
  active = [];
  canceling = [];
  calling_expired_timers = false;
  objects = objects;
  alarm = none;
}

abbrev pub active_timer : TimerQueue → ℕ → Pair
active_timer q p = (p, (q.objects p).sequence)

abbrev pub restart : ℕ → Timer → Timer
restart now t =
    if t.repeat
    then record t { expiration = now + t.interval * 1000 }
    else record t { expiration = 0 }

-- `now` is the clock; what is past or nearer than 100 microseconds is in 100 microseconds.
pub how_much_time_from_now : ℕ → ℕ → ℕ × ℕ
how_much_time_from_now now when =
    let difference = when / 1000 - now / 1000 in
    let microseconds = if ltb difference 100 then 100 else difference in
    (microseconds / 1000000, microseconds % 1000000 * 1000)

abbrev pub reset_timerfd : ℕ → ℕ → TimerQueue → TimerQueue
reset_timerfd now when q = record q { alarm = some (how_much_time_from_now now when) }

abbrev pub sizes_agree : TimerQueue → Bool
sizes_agree q = length q.timers == length q.active

abbrev is_earlier : ℕ → List Pair → Bool
is_earlier when [] = true
is_earlier when (e ∷ es) = ltb when e.0

-- Both sets with the timer at the address `p`.
abbrev pub inserted : TimerQueue → ℕ → TimerQueue
inserted q p = record q {
  timers = insert_pair ((q.objects p).expiration, p) q.timers;
  active = insert_pair (active_timer q p) q.active;
}

pub insert : TimerQueue → ℕ → Result (Bool × TimerQueue)
insert q p =
    let when = (q.objects p).expiration in
    assert (sizes_agree q)
    >> (assert (not (has (when, p) q.timers))
        >> (assert (not (has (active_timer q p) q.active))
            >> (assert (sizes_agree (inserted q p))
                >> ok (is_earlier when q.timers, inserted q p))))

pub add_timer_in_loop : ℕ → TimerQueue → ℕ → Result TimerQueue
unfolding insert
add_timer_in_loop now q p = do
  (earliest_changed, q') ← insert q p
  ok (if earliest_changed then reset_timerfd now (q'.objects p).expiration q' else q')

-- Both sets without the timer.
abbrev pub erased : TimerQueue → Pair → TimerQueue
erased q id = record q {
  timers = erase_pair ((q.objects id.0).expiration, id.0) q.timers;
  active = erase_pair id q.active;
}

-- A timer that is not in the queue is noted while callbacks run.
abbrev pub noted : TimerQueue → Pair → TimerQueue
noted q id =
    if q.calling_expired_timers then record q { canceling = insert_pair id q.canceling } else q

-- The address is what lock() gives, 0 if the timer is gone; the iterator that erase returns must not be
-- the end of the set.
pub cancel_in_loop : TimerQueue → Pair → Result TimerQueue
cancel_in_loop q id =
    let found =
      assert (has ((q.objects id.0).expiration, id.0) q.timers)
      >> (assert (is_followed id q.active)
          >> (assert (sizes_agree (erased q id)) >> ok (erased q id))) in
    assert (sizes_agree q)
    >> (if has id q.active then found else (assert (sizes_agree q) >> ok (noted q id)))

-- The loop of getExpired over the expired entries.
pub erase_active : TimerQueue → List Pair → Result TimerQueue
erase_active q [] = ok q
erase_active q (e ∷ es) =
    let timer = active_timer q e.1 in
    assert (has timer q.active) >> erase_active (record q { active = erase_pair timer q.active }) es

abbrev starts_after : ℕ → List Pair → Bool
starts_after now [] = true
starts_after now (e ∷ es) = ltb now e.0

-- The sentry's null pointer comes before every timer's address.
pub get_expired : TimerQueue → ℕ → Result (List Pair × TimerQueue)
unfolding erase_active
get_expired q now =
    let (expired, rest) = split_at (now, 0) q.timers in
    assert (sizes_agree q)
    >> (assert (starts_after now rest)
        >> (erase_active (record q { timers = rest }) expired >>= λ q'.
            assert (sizes_agree q') >> ok (expired, q')))

-- The loop of reset.
pub restart_all : TimerQueue → List Pair → ℕ → Result TimerQueue
unfolding insert
restart_all q [] now = ok q
restart_all q (e ∷ es) now =
    let p = e.1 in
    let q' = record q { objects = update q.objects p (restart now (q.objects p)) } in
    if (q.objects p).repeat && not (has (active_timer q p) q.canceling)
    then (insert q' p >>= λ r. restart_all r.1 es now)
    else restart_all q es now

-- The expiration of the first timer; that of no timer is the epoch, which is valid.
abbrev next_expire : TimerQueue → ℕ
next_expire q = elim q.timers [ [] ↦ 0 | ◌∷◌ e es ↦ (q.objects e.1).expiration ]

-- `clock` is the time when the descriptor is set.
pub reset : ℕ → TimerQueue → List Pair → ℕ → Result TimerQueue
unfolding restart_all
reset clock q expired now = do
  q' ← restart_all q expired now
  ok (reset_timerfd clock (next_expire q') q')

-- What a callback does with the queue: it adds a new timer at an address, at a
-- time of the clock, or cancels one.
pub data Call : Type 0 where
  adds : ℕ → ℕ → Timer → Call
  cancels : Pair → Call

pub run_call : TimerQueue → Call → Result TimerQueue
unfolding add_timer_in_loop cancel_in_loop
run_call q (adds clock p t) =
    add_timer_in_loop clock (record q { objects = update q.objects p t }) p
run_call q (cancels id) = cancel_in_loop q id

pub run_calls : TimerQueue → List Call → Result TimerQueue
unfolding run_call
run_calls q [] = ok q
run_calls q (c ∷ cs) = run_call q c >>= λ q'. run_calls q' cs

-- The calls of the expired timers, by the address.
abbrev pub all_calls : (ℕ → List Call) → List Pair → List Call
all_calls script [] = []
all_calls script (e ∷ es) = script e.1 ++ all_calls script es

pub handle_read : ℕ → TimerQueue → ℕ → (ℕ → List Call) → Result TimerQueue
unfolding get_expired run_calls reset
handle_read clock q now script = do
  (expired, q') ← get_expired q now
  called ←
      run_calls (record q' { calling_expired_timers = true; canceling = [] })
        (all_calls script expired)
  reset clock (record called { calling_expired_timers = false }) expired now
