-- ===== src/EventLoop/Steps.antt =====
-- Each event keeps the invariant and the order of the functors.
use chaonet.Common.{
  assert_passes, and_left, and_right, Bool-cases, ℕ, ◌+◌, ◌-◌, ◌≡◌, inl, inr, Bool, true, false,
  not, List, [], ◌∷◌, ◌++◌, append_assoc, append-nil, arith, refl, sym, ◌∙◌, ap, Result, ok, ◌>>=◌,
  if◌then◌else◌,
}
use chaonet.EventLoop.{
  outside, polling, handling, EventLoop, wakeup, push_functor, handle_read, swap_functors,
  call_next, Call, at_once, from_queue, Event, enters, returns, woken, swaps, calls_next, finishes,
  wakes, quits, queues, runs, pushes, step,
}
use chaonet.EventLoop.Order.{
  Inv, allowed, queued, dequeued, outside_phase, polling_phase, handling_phase, calling_phase,
  is_calling, is_empty,
}

-- One event: no failed assertion, the invariant, and the order of the functors.
pub record Stepped (l : EventLoop) (e : Event) (o : Result (EventLoop × List Call)) : Type 0 where
  pub next : EventLoop
  pub calls : List Call
  pub run : o ≡ ok (next, calls)
  pub inv : Inv next
  pub order :
      dequeued calls ++ (next.functors ++ next.pending) ≡ (l.functors ++ l.pending) ++ queued e

module _ (l : EventLoop) (v : Inv l) where
  abbrev pub same_order : l.functors ++ l.pending ≡ (l.functors ++ l.pending) ++ []
  same_order = sym (append-nil (l.functors ++ l.pending))

  pub step-Stepped : (e : Event) → allowed l e ≡ true → Stepped l e (step l e)
  unfolding step
  step-Stepped enters a =
      let (idle, off) = outside_phase l.phase a in
      let stopped : l.looping ≡ false = v.looping ∙ ap not a in
      record {
        next = record l { looping = true; quit = false; phase = polling };
        calls = [];
        run =
            ap (λ o. o >>= λ l'. ok (l', []))
              (assert_passes (not l.looping)
                (ok (record l { looping = true; quit = false; phase = polling })) (ap not stopped));
        inv = record {
          awake = λ h. v.awake off;
          rest = λ h. v.rest idle;
          flag = v.flag ∙ idle;
          looping = refl;
        };
        order = same_order;
      }
  step-Stepped returns a =
      let (idle, inside) = polling_phase l.phase a in
      record {
        next = record l { phase = handling };
        calls = [];
        run = refl;
        inv = record {
          awake = λ h. absurd (cc (h));
          rest = λ h. v.rest idle;
          flag = v.flag ∙ idle;
          looping = v.looping ∙ ap not inside;
        };
        order = same_order;
      }
  step-Stepped woken a = record {
    next = handle_read l;
    calls = [];
    run = refl;
    inv = record {
      awake = λ h. absurd (cc (a, h));
      rest = v.rest;
      flag = v.flag;
      looping = v.looping;
    };
    order = same_order;
  }
  step-Stepped swaps a =
      let (idle, inside) = handling_phase l.phase a in
      record {
        next = swap_functors l;
        calls = [];
        run = refl;
        inv = record {
          awake = λ h. inl refl;
          rest = λ h. absurd (cc (h));
          flag = refl;
          looping = v.looping ∙ ap not inside;
        };
        order = append-nil l.pending ∙ ap (λ xs. xs ++ l.pending) (sym (v.rest idle)) ∙ same_order;
      }
  step-Stepped calls_next a = by_functors l.functors refl
    where
      by_functors : (fs : List ℕ) → l.functors ≡ fs → Stepped l calls_next (step l calls_next)
      by_functors [] e =
          absurd (cc (and_right (is_calling l.phase) _ a, ap (λ xs. not (is_empty xs)) e))
      by_functors (f ∷ fs) e = record {
        next = record l { functors = fs };
        calls = from_queue f ∷ [];
        run = ap (λ xs. ok (call_next l xs)) e;
        inv = record {
          awake = v.awake;
          rest = λ h. absurd (cc (and_left (is_calling l.phase) _ a, h));
          flag = v.flag;
          looping = v.looping;
        };
        order = ap (λ xs. xs ++ l.pending) (sym e) ∙ same_order;
      }
  step-Stepped finishes a = by_quit l.quit
    where
      busy : is_calling l.phase ≡ true
      busy = and_left (is_calling l.phase) _ a

      nothing : (fs : List ℕ) → is_empty fs ≡ true → fs ≡ []
      nothing [] h = refl
      nothing (x ∷ xs) h = absurd (cc (h))

      after : Bool → EventLoop
      after b =
          let l' = record l { calling_pending_functors = false } in
          if b
          then record l' { looping = false; phase = outside }
          else record l' { phase = polling }

      done : l.functors ≡ []
      done = nothing l.functors (and_right (is_calling l.phase) _ a)

      by_quit : (b : Bool) → Stepped l finishes (ok (after b, []))
      by_quit true = record {
        next = after true;
        calls = [];
        run = refl;
        inv = record {
          awake = λ h. v.awake (calling_phase l.phase busy).0;
          rest = λ h. done;
          flag = refl;
          looping = refl;
        };
        order = same_order;
      }
      by_quit false = record {
        next = after false;
        calls = [];
        run = refl;
        inv = record {
          awake = λ h. v.awake (calling_phase l.phase busy).0;
          rest = λ h. done;
          flag = refl;
          looping = v.looping ∙ ap not (calling_phase l.phase busy).1;
        };
        order = same_order;
      }
  step-Stepped wakes a = record {
    next = wakeup (record l { owed = l.owed - 1 });
    calls = [];
    run = refl;
    inv = record {
      awake = λ h. inr (omega arith);
      rest = v.rest;
      flag = v.flag;
      looping = v.looping;
    };
    order = same_order;
  }
  step-Stepped (quits true) a = record {
    next = record l { quit = true };
    calls = [];
    run = refl;
    inv = record { awake = v.awake; rest = v.rest; flag = v.flag; looping = v.looping };
    order = same_order;
  }
  step-Stepped (quits false) a = record {
    next = wakeup (record l { quit = true });
    calls = [];
    run = refl;
    inv = record {
      awake = λ h. inr (omega arith);
      rest = v.rest;
      flag = v.flag;
      looping = v.looping;
    };
    order = same_order;
  }
  step-Stepped (queues f) a = elim (Bool-cases l.calling_pending_functors) [
    | inl y ↦ record {
      next = wakeup (push_functor l f);
      calls = [];
      run = ap (λ b. ok (if b then wakeup (push_functor l f) else push_functor l f, [])) y;
      inv = record {
        awake = λ h. inr (omega arith);
        rest = v.rest;
        flag = v.flag;
        looping = v.looping;
      };
      order = sym (append_assoc l.functors l.pending (f ∷ []));
    }
    | inr n ↦ record {
      next = push_functor l f;
      calls = [];
      run = ap (λ b. ok (if b then wakeup (push_functor l f) else push_functor l f, [])) n;
      inv = record {
        awake = λ h. absurd (cc (a, h, sym v.flag ∙ n));
        rest = v.rest;
        flag = v.flag;
        looping = v.looping;
      };
      order = sym (append_assoc l.functors l.pending (f ∷ []));
    }
  ]
  step-Stepped (runs f) a = record {
    next = l;
    calls = at_once f ∷ [];
    run = refl;
    inv = v;
    order = same_order;
  }
  step-Stepped (pushes f) a = record {
    next = record (push_functor l f) { owed = l.owed + 1 };
    calls = [];
    run = refl;
    inv = record {
      awake = λ h. inr (omega arith);
      rest = v.rest;
      flag = v.flag;
      looping = v.looping;
    };
    order = sym (append_assoc l.functors l.pending (f ∷ []));
  }
