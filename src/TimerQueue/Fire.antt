-- ===== src/TimerQueue/Fire.antt =====
-- timerfd is readable: the due timers are taken out, their callbacks run, and the repeating ones are put
-- back.
use chaonet.Common.{
  ℕ, Bool-cases, ◌≡◌, inl, inr, true, false, List, [], refl, ◌∙◌, ap, subst, Result, ok, err, ◌>>=◌,
  Pair, has,
}
use chaonet.TimerQueue.{
  TimerQueue, Timer, active_timer, get_expired, reset, Call, run_calls, all_calls, handle_read,
}
use chaonet.TimerQueue.Inv.{Inv}
use chaonet.TimerQueue.Expired.{has_address, Held, Expired, get_expired-Expired}
use chaonet.TimerQueue.Restart.{Reset, reset-Reset}
use chaonet.TimerQueue.Calls.{CallsOk, calls_cancel, Held-absent, run_calls-Called}

-- The queue when the callbacks begin.
abbrev pub begun : TimerQueue → TimerQueue
begun q = record q { calling_expired_timers = true; canceling = [] }

abbrev pub ended : TimerQueue → TimerQueue
ended q = record q { calling_expired_timers = false }

-- The calls are in order after getExpired.
abbrev pub CallsAt : Result (List Pair × TimerQueue) → (ℕ → List Call) → Type 0
CallsAt (err f) script = Unit {0}
CallsAt (ok r) script = CallsOk r.0 (begun r.1) (all_calls script r.0)

pub record Handled (clock : ℕ) (q : TimerQueue) (now : ℕ) (script : ℕ → List Call)
    (o : Result TimerQueue) : Type 0 where
  pub expired : Expired q now (get_expired q now)
  pub called : TimerQueue
  pub calls : run_calls (begun expired.queue) (all_calls script expired.due) ≡ ok called
  pub outcome : Reset clock (ended called) expired.due now o
  pub cancelled :
      (e p : ℕ)
      → has_address p expired.due ≡ true
      → calls_cancel (active_timer q p) (all_calls script expired.due) ≡ true
      → has (e, p) outcome.queue.timers ≡ false

-- The same queue, of an outcome that comes to it first.
run_first :
    {clock : ℕ} {q : TimerQueue} {es : List Pair} {now : ℕ} {o o' : Result TimerQueue}
    → o' ≡ o
    → Reset clock q es now o
    → Reset clock q es now o'
run_first e r = record {
  queue = r.queue;
  run = e ∙ r.run;
  inv = r.inv;
  kept = r.kept;
  again = r.again;
  only = r.only;
  flag = r.flag;
  alarm_none = r.alarm_none;
  alarm_first = r.alarm_first;
}

-- An expired timer that was noted is not in the queue behind reset.
stays_out :
    {clock now : ℕ} {o : Result TimerQueue} (called : TimerQueue) (due : List Pair)
    (r : Reset clock (ended called) due now o)
    → Inv called
    → Held due called.active
    → (e p : ℕ) → has_address p due ≡ true
    → has (active_timer called p) called.canceling ≡ true
    → has (e, p) r.queue.timers ≡ false
stays_out called due r v held e p out noted = elim (Bool-cases (has (e, p) r.queue.timers)) [
  | inr n ↦ n
  | inl y ↦ elim (r.only (e, p) y) [
    | inl there ↦
        let on = (v.entry e p there).1 in
        absurd (cc (on, Held-absent due called.active p (called.objects p).sequence held out))
    | inr (_, _, free, _) ↦ absurd (cc (free, noted))
  ]
]

module _ (clock : ℕ) (q : TimerQueue) (now : ℕ) (script : ℕ → List Call) where
  -- If no timer is due at the very time of the call and the callbacks' calls are in order, handleRead
  -- fails no assertion: the timers before that time are taken out, the callbacks run, and then the queue
  -- is as reset leaves it, with its invariant. An expired timer that a callback cancels stays out.
  pub handle_read-Handled :
      Inv q
      → ((p : ℕ) → has (now, p) q.timers ≡ false)
      → CallsAt (get_expired q now) script
      → Handled clock q now script (handle_read clock q now script)
  unfolding handle_read
  handle_read-Handled v none_now fine =
      let x = get_expired-Expired q now v none_now in
      let calls = all_calls script x.due in
      let w =
        run_calls-Called x.due (begun x.queue) calls x.inv x.held refl
          (subst (λ o. CallsAt o script) x.run fine) in
      let r = reset-Reset clock (ended w.queue) x.due now w.inv w.held in
      let whole =
        ap (λ o. o >>= run_rest) x.run
        ∙ ap (λ o. o >>= λ called. reset clock (ended called) x.due now) w.run in
      record {
        expired = x;
        called = w.queue;
        calls = w.run;
        outcome = run_first whole r;
        cancelled = λ e p out asked.
            let object : w.queue.objects p ≡ q.objects p =
              w.objects p out ∙ ap (λ f. f p) x.objects in
            let noted =
              ap (λ (t : Timer). has (p, t.sequence) w.queue.canceling) object
              ∙ w.remembered (active_timer q p) out asked in
            stays_out w.queue x.due (run_first whole r) w.inv w.held e p out noted;
      }
    where
      run_rest : List Pair × TimerQueue → Result TimerQueue
      run_rest r = run_calls (begun r.1) (all_calls script r.0) >>= λ called.
          reset clock (ended called) r.0 now
