-- ===== src/TimerQueue/Inv.antt =====
-- The two sets of a queue hold the same timers.
use chaonet.Common.{
  ℕ, suc, ◌≡◌, ◌≢◌, inl, inr, true, false, List, arith, sym, ◌∙◌, ap, Bool-cases, length, update,
  update_ne, Pair, same, has, insert_pair, erase_pair, Sorted, insert_pair_cases, has-insert_self,
  has-insert_keep, erase_pair_cases, has-erase_keep, length-insert_pair, insert-Sorted,
  length-erase_pair, erase-Sorted,
}
use chaonet.TimerQueue.{Timer, TimerQueue}

-- Each entry is that of an active timer, with its expiration, and each active timer has its entry.
pub record Agree (es active : List Pair) (objects : ℕ → Timer) : Type 0 where
  pub sizes : length es ≡ length active
  pub sorted : Sorted es
  pub active_sorted : Sorted active
  pub entry :
      (e p : ℕ)
      → has (e, p) es ≡ true
      → (e ≡ (objects p).expiration) × (has (p, (objects p).sequence) active ≡ true)
  pub timer :
      (p s : ℕ)
      → has (p, s) active ≡ true
      → (s ≡ (objects p).sequence) × (has ((objects p).expiration, p) es ≡ true)

abbrev pub Inv : TimerQueue → Type 0
Inv q = Agree q.timers q.active q.objects

-- No timer at this address is in the queue.
abbrev pub Absent : ℕ → List Pair → Type 0
Absent p active = (s : ℕ) → has (p, s) active ≡ false

pair_eq : {a b c d : ℕ} → a ≡ c → b ≡ d → ◌≡◌ {A = Pair} (a, b) (c, d)
pair_eq e f = rw (e, f)

module _ {es active : List Pair} {objects : ℕ → Timer} (v : Agree es active objects) (p : ℕ) where
  abbrev entry_of : Pair
  entry_of = ((objects p).expiration, p)

  abbrev timer_of : Pair
  timer_of = (p, (objects p).sequence)

  pub absent-entry : has timer_of active ≡ false → has entry_of es ≡ false
  absent-entry h = elim (Bool-cases (has entry_of es)) [
    | inl y ↦ absurd (cc (h, (v.entry (objects p).expiration p y).1))
    | inr n ↦ n
  ]

  entry_self :
      (e x : ℕ)
      → (e, x) ≡ entry_of
      → (e ≡ (objects x).expiration)
        × (has (x, (objects x).sequence) (insert_pair timer_of active) ≡ true)
  entry_self e x h =
      let there : x ≡ p = ap (λ r. r.1) h in
      (
        ap (λ r. r.0) h ∙ ap (λ z. (objects z).expiration) (sym there),
        ap (λ z. has (z, (objects z).sequence) (insert_pair timer_of active)) there
            ∙ has-insert_self timer_of active,
      )

  timer_self :
      (x s : ℕ)
      → (x, s) ≡ timer_of
      → (s ≡ (objects x).sequence)
        × (has ((objects x).expiration, x) (insert_pair entry_of es) ≡ true)
  timer_self x s h =
      let there : x ≡ p = ap (λ r. r.0) h in
      (
        ap (λ r. r.1) h ∙ ap (λ z. (objects z).sequence) (sym there),
        ap (λ z. has ((objects z).expiration, z) (insert_pair entry_of es)) there
            ∙ has-insert_self entry_of es,
      )

  pub Agree-insert :
      has timer_of active ≡ false
      → Agree (insert_pair entry_of es) (insert_pair timer_of active) objects
  Agree-insert h = record {
    sizes =
        length-insert_pair entry_of es (absent-entry h)
        ∙ ap suc v.sizes
        ∙ sym (length-insert_pair timer_of active h);
    sorted = insert-Sorted entry_of es v.sorted;
    active_sorted = insert-Sorted timer_of active v.active_sorted;
    entry = λ e x y. elim (insert_pair_cases (e, x) entry_of es y) [
      | inl same ↦ entry_self e x same
      | inr old ↦
          let (time, on) = v.entry e x old in
          (time, has-insert_keep (x, (objects x).sequence) timer_of active on)
    ];
    timer = λ x s y. elim (insert_pair_cases (x, s) timer_of active y) [
      | inl same ↦ timer_self x s same
      | inr old ↦
          let (number, on) = v.timer x s old in
          (number, has-insert_keep ((objects x).expiration, x) entry_of es on)
    ];
  }

  pub Agree-erase :
      has timer_of active ≡ true
      → Agree (erase_pair entry_of es) (erase_pair timer_of active) objects
  Agree-erase h = record {
    sizes = omega (
      arith,
      v.sizes,
      length-erase_pair entry_of es ((v.timer p (objects p).sequence h).1),
      length-erase_pair timer_of active h,
    );
    sorted = erase-Sorted entry_of es v.sorted;
    active_sorted = erase-Sorted timer_of active v.active_sorted;
    entry = λ e x y.
        let (other, old) = erase_pair_cases (e, x) entry_of es v.sorted y in
        let (time, on) = v.entry e x old in
        let differ : x ≢ p = λ z. other (pair_eq (time ∙ ap (λ z. (objects z).expiration) z) z) in
        (
          time,
          has-erase_keep (x, (objects x).sequence) timer_of active v.active_sorted
              (λ z. differ (ap (λ r. r.0) z)) on,
        );
    timer = λ x s y.
        let (other, old) = erase_pair_cases (x, s) timer_of active v.active_sorted y in
        let (number, on) = v.timer x s old in
        let differ : x ≢ p = λ z. other (pair_eq z (number ∙ ap (λ z. (objects z).sequence) z)) in
        (
          number,
          has-erase_keep ((objects x).expiration, x) entry_of es v.sorted
              (λ z. differ (ap (λ r. r.1) z)) on,
        );
  }

  pub Agree-update : (t : Timer) → Absent p active → Agree es active (update objects p t)
  Agree-update t absent = record {
    sizes = v.sizes;
    sorted = v.sorted;
    active_sorted = v.active_sorted;
    entry = λ e x y.
        let (time, on) = v.entry e x y in
        let other : x ≢ p = λ z. cc (
          on,
          sym (ap (λ z. has (z, (objects x).sequence) active) z),
          absent (objects x).sequence,
        ) in
        let same_object = update_ne objects p t x other in
        (
          time ∙ ap (λ o. o.expiration) (sym same_object),
          ap (λ o. has (x, o.sequence) active) same_object ∙ on,
        );
    timer = λ x s y.
        let (number, on) = v.timer x s y in
        let other : x ≢ p = λ z. cc (y, sym (ap (λ z. has (z, s) active) z), absent s) in
        let same_object = update_ne objects p t x other in
        (
          number ∙ ap (λ o. o.sequence) (sym same_object),
          ap (λ o. has (o.expiration, x) es) same_object ∙ on,
        );
  }
