-- ===== src/TimerQueue/Expired.antt =====
-- getExpired takes out the timers that are due.
use chaonet.Common.{
  ℕ, ◌≤◌, ◌<◌, ◌≡◌, ◌≢◌, ◌⊎◌, inl, inr, Bool, true, false, or_true, false_from, ◌||◌, List, [], ◌∷◌,
  ◌++◌, arith, refl, sym, ◌∙◌, ap, subst, Result, ok, err, assert_failed, assert_passes,
  assert_fails, ◌>>=◌, ◌>>◌, assert, ◌==◌, lt→ltb, le→ltb-eq-false, eq→==, ==_iff, Bool-cases,
  if◌then◌else◌, Pair, before, same, same-eq, same_self, has, erase_pair, split_at, Sorted,
  Above-before-has, Above-has, append-split_at, has-append, front-before, Sorted-append,
  rest-not_before, erase_pair_cases, insert_pair, insert_pair_cases,
}
use chaonet.TimerQueue.{
  TimerQueue, active_timer, sizes_agree, erase_active, starts_after, get_expired,
}
use chaonet.TimerQueue.Inv.{Agree, Inv, Absent, Agree-erase}
use chaonet.TimerQueue.Steps.{sizes}

abbrev pub has_address : ℕ → List Pair → Bool
has_address p [] = false
has_address p (e ∷ es) = e.1 == p || has_address p es

-- The expired timers: their addresses are different, and none is in the queue.
abbrev pub Held : List Pair → List Pair → Type 0
Held [] active = Unit {0}
Held (e ∷ es) active = Absent e.1 active × (has_address e.1 es ≡ false) × Held es active

-- What joins the set does not have the address of a held timer.
pub Held-more :
    (es a b : List Pair)
    → ((r : Pair) → has r b ≡ true → (has_address r.0 es ≡ false) ⊎ (has r a ≡ true))
    → Held es a
    → Held es b
Held-more [] a b f held = tt
Held-more ((e, x) ∷ es) a b f (absent, twin, held) = (
  λ n. false_from (λ y. old n (f (x, n) y)) (absent n),
  twin,
  Held-more es a b (λ r y. tail r (f r y)) held,
)
  where
    or_false : (s t : Bool) → (s || t) ≡ false → (s ≡ false) × (t ≡ false)
    or_false s t h = ground arith

    old :
        (n : ℕ)
        → (has_address x ((e, x) ∷ es) ≡ false) ⊎ (has (x, n) a ≡ true)
        → has (x, n) a ≡ true
    old n (inl z) = absurd (cc (eq→== x x refl, (or_false (x == x) (has_address x es) z).0))
    old n (inr y) = y

    tail :
        (r : Pair)
        → (has_address r.0 ((e, x) ∷ es) ≡ false) ⊎ (has r a ≡ true)
        → (has_address r.0 es ≡ false) ⊎ (has r a ≡ true)
    tail r (inl z) = inl (or_false (x == r.0) (has_address r.0 es) z).1
    tail r (inr y) = inr y

pub Held-insert :
    (es : List Pair) (p s : ℕ) (active : List Pair)
    → has_address p es ≡ false
    → Held es active
    → Held es (insert_pair (p, s) active)
Held-insert es p s active h held = Held-more es active (insert_pair (p, s) active) joins held
  where
    joins :
        (r : Pair)
        → has r (insert_pair (p, s) active) ≡ true
        → (has_address r.0 es ≡ false) ⊎ (has r active ≡ true)
    joins r y = elim (insert_pair_cases r (p, s) active y) [
      | inl e ↦ inl (ap (λ z. has_address z.0 es) e ∙ h)
      | inr old ↦ inr old
    ]

has_address-has :
    (p : ℕ) (es : List Pair) → has_address p es ≡ true → (e : ℕ) × (has (e, p) es ≡ true)
has_address-has p [] h = absurd (cc (h))
has_address-has p ((e, x) ∷ es) h = elim (Bool-cases (x == p)) [
  | inl y ↦ (
    e,
    ap (λ z. same (e, z) (e, x) || has (e, z) es) (sym ((==_iff x p).0 y))
        ∙ ap (λ b. b || has (e, x) es) (same_self (e, x)),
  )
  | inr n ↦
      let (e', there) = has_address-has p es (sym (ap (λ b. b || has_address p es) n) ∙ h) in
      (e', ap (λ b. same (e', p) (e, x) || b) there ∙ or_true (same (e', p) (e, x)))
]

-- What the loop of getExpired makes of the active timers.
record Erased (q : TimerQueue) (es : List Pair) (o : Result TimerQueue) : Type 0 where
  active : List Pair
  run : o ≡ ok (record q { active = active })
  agree : Agree q.timers active q.objects
  held : Held es active
  fewer : (r : Pair) → has r active ≡ true → has r q.active ≡ true

module _ (q : TimerQueue) (e p : ℕ) (es : List Pair)
    (v : Agree ((e, p) ∷ es ++ q.timers) q.active q.objects) where
  abbrev less : List Pair
  less = erase_pair (active_timer q p) q.active

  at_head : (e ≡ (q.objects p).expiration) × (has (active_timer q p) q.active ≡ true)
  at_head = v.entry e p (ap (λ b. b || has (e, p) (es ++ q.timers)) (same_self (e, p)))

  Agree-less : Agree (es ++ q.timers) less q.objects
  Agree-less =
      subst (λ xs. Agree xs less q.objects)
        (ap (λ b. if b then es ++ q.timers else (e, p) ∷ erase_pair (e, p) (es ++ q.timers))
          (same_self (e, p)))
        (subst (λ n. Agree (erase_pair (n, p) ((e, p) ∷ es ++ q.timers)) less q.objects)
          (sym at_head.0) (Agree-erase v p at_head.1))

  Absent-less : Absent p less
  Absent-less s = elim (Bool-cases (has (p, s) less)) [
    | inl y ↦
        let (other, old) = erase_pair_cases (p, s) (active_timer q p) q.active v.active_sorted y in
        absurd (other (ap (λ n. (p, n)) (v.timer p s old).0))
    | inr n ↦ n
  ]

  no_twin : has_address p es ≡ false
  no_twin = elim (Bool-cases (has_address p es)) [
    | inl y ↦
        let (e', there) = has_address-has p es y in
        let inside : has (e', p) (es ++ q.timers) ≡ true =
          has-append (e', p) es q.timers ∙ ap (λ b. b || has (e', p) q.timers) there in
        let time : e' ≡ (q.objects p).expiration =
          (v.entry e' p
            (ap (λ b. same (e', p) (e, p) || b) inside ∙ or_true (same (e', p) (e, p)))).0 in
        absurd (cc (Above-has (e, p) (es ++ q.timers) v.sorted.0, inside, time, at_head.0))
    | inr n ↦ n
  ]

erase_active-Erased :
    (q : TimerQueue) (es : List Pair)
    → Agree (es ++ q.timers) q.active q.objects
    → Erased q es (erase_active q es)
unfolding erase_active
erase_active-Erased q [] v = record {
  active = q.active;
  run = refl;
  agree = v;
  held = tt;
  fewer = λ r h. h;
}
erase_active-Erased q ((e, p) ∷ es) v =
    let w =
      erase_active-Erased (record q { active = less q e p es v }) es (Agree-less q e p es v) in
    record {
      active = w.active;
      run = assert_passes (has (active_timer q p) q.active) _ (at_head q e p es v).1 ∙ w.run;
      agree = w.agree;
      held =
          (λ s. false_from (w.fewer (p, s)) (Absent-less q e p es v s), no_twin q e p es v, w.held);
      fewer =
          λ r h. (erase_pair_cases r (active_timer q p) q.active v.active_sorted (w.fewer r h)).1;
    }

-- What getExpired comes to when no timer is due at this very moment.
pub record Expired (q : TimerQueue) (now : ℕ) (o : Result (List Pair × TimerQueue)) : Type 0 where
  pub due : List Pair
  pub queue : TimerQueue
  pub run : o ≡ ok (due, queue)
  pub all : due ++ queue.timers ≡ q.timers
  pub past : (e p : ℕ) → has (e, p) due ≡ true → e < now
  pub future : (e p : ℕ) → has (e, p) queue.timers ≡ true → now < e
  pub inv : Inv queue
  pub held : Held due queue.active
  pub objects : queue.objects ≡ q.objects

before_sentry : (e p now : ℕ) → before (e, p) (now, 0) ≡ true → e < now
before_sentry e p now h = ground arith

not_before_sentry : (e p now : ℕ) → before (e, p) (now, 0) ≡ false → now ≤ e
not_before_sentry e p now h = ground arith

before-le : (e x d y : ℕ) → before (e, x) (d, y) ≡ true → e ≤ d
before-le e x d y h = ground arith

module _ (q : TimerQueue) (now : ℕ) (v : Inv q) where
  abbrev due_now : List Pair
  due_now = (split_at (now, 0) q.timers).0

  abbrev rest : List Pair
  rest = (split_at (now, 0) q.timers).1

  -- What is not due has at least the present time.
  rest-le : (e p : ℕ) → has (e, p) rest ≡ true → now ≤ e
  rest-le e p h = not_before_sentry e p now (rest-not_before (e, p) (now, 0) q.timers v.sorted h)

  rest-has : (e p : ℕ) → has (e, p) rest ≡ true → has (e, p) q.timers ≡ true
  rest-has e p h =
      sym (ap (has (e, p)) (append-split_at (now, 0) q.timers))
      ∙ has-append (e, p) due_now rest
      ∙ ap (λ b. has (e, p) due_now || b) h
      ∙ or_true (has (e, p) due_now)

  -- getExpired takes out the timers before the given time, and leaves the later ones. It fails no
  -- assertion if no timer is due at that very time.
  pub get_expired-Expired :
      ((p : ℕ) → has (now, p) q.timers ≡ false) → Expired q now (get_expired q now)
  unfolding get_expired
  get_expired-Expired none_now = record {
    due = due_now;
    queue = record q { timers = rest; active = w.active };
    run =
        assert_passes (sizes_agree q) _ (sizes q v)
        ∙ assert_passes (starts_after now rest) _ (starts rest future)
        ∙ ap (λ o. o >>= λ q'. assert (sizes_agree q') >> ok (due_now, q')) w.run
        ∙ assert_passes (sizes_agree (record q { timers = rest; active = w.active })) _
            (sizes (record q { timers = rest; active = w.active }) w.agree);
    all = append-split_at (now, 0) q.timers;
    past = λ e p h. before_sentry e p now (front-before (e, p) (now, 0) q.timers h);
    future = future;
    inv = w.agree;
    held = w.held;
    objects = refl;
  }
    where
      w :
          Erased
            (record q { timers = rest })
            due_now
            (erase_active (record q { timers = rest }) due_now)
      w =
          erase_active-Erased (record q { timers = rest }) due_now
            (subst (λ xs. Agree xs q.active q.objects) (sym (append-split_at (now, 0) q.timers)) v)

      future : (e p : ℕ) → has (e, p) rest ≡ true → now < e
      future e p h =
          let differ : e ≢ now =
            λ z. cc (rest-has e p h, none_now p, ap (λ n. has (n, p) q.timers) z) in
          omega (arith, rest-le e p h, differ)

      starts :
          (es : List Pair)
          → ((e p : ℕ) → has (e, p) es ≡ true → now < e)
          → starts_after now es ≡ true
      starts [] f = refl
      starts ((e, p) ∷ es) f =
          lt→ltb now e (f e p (ap (λ b. b || has (e, p) es) (same_self (e, p))))

  -- A timer that is due at the very time of the call fails the assertion of getExpired.
  pub get_expired_due_now :
      (p : ℕ) → has (now, p) q.timers ≡ true → get_expired q now ≡ err assert_failed
  unfolding get_expired
  get_expired_due_now p there =
      assert_passes (sizes_agree q) _ (sizes q v)
      ∙ assert_fails (starts_after now rest) _
          (starts rest in_rest (Sorted-append due_now rest all_sorted).1)
    where
      all_sorted : Sorted (due_now ++ rest)
      all_sorted = subst Sorted (sym (append-split_at (now, 0) q.timers)) v.sorted

      in_rest : has (now, p) rest ≡ true
      in_rest = elim (Bool-cases (has (now, p) due_now)) [
        | inl y ↦
            absurd
              (omega (arith, before_sentry now p now (front-before (now, p) (now, 0) q.timers y)))
        | inr n ↦
            sym (ap (λ b. b || has (now, p) rest) n)
            ∙ sym (has-append (now, p) due_now rest)
            ∙ ap (has (now, p)) (append-split_at (now, 0) q.timers)
            ∙ there
      ]

      starts : (es : List Pair) → has (now, p) es ≡ true → Sorted es → starts_after now es ≡ false
      starts [] h s = absurd (cc (h))
      starts ((e, x) ∷ es) h s = elim (Bool-cases (same (now, p) (e, x))) [
        | inl y ↦ le→ltb-eq-false now e (omega (arith, ap (λ r. r.0) (same-eq (now, p) (e, x) y)))
        | inr n ↦
            let earlier =
              Above-before-has (e, x) (now, p) es s.0
                (sym (ap (λ b. b || has (now, p) es) n) ∙ h) in
            le→ltb-eq-false now e (before-le e x now p earlier)
      ]
