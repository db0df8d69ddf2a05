-- ===== src/EPoller/Poll.antt =====
-- Polling: which channels become active.
use native.Mathlib.Decide.{ℕ_discrete}
use chaonet.Common.{
  ℕ, ◌*◌, ◌≤◌, ◌≡◌, refl, sym, ap, ◌∙◌, Option, none, some, arith, ok, update_self, update_ne, ◌==◌,
  le→leb, if◌then◌else◌, List, [], ◌∷◌, map, length, subst,
}
use chaonet.Channel.{Channel}
use chaonet.EPoller.Kernel.{Epoll}
use chaonet.EPoller.{World, fill_active_channels, poll, store}
use chaonet.EPoller.Inv.{Agrees, fresh, active, idle, AgreesIn, Inv}

module _ (k : Epoll) where
  -- epoll_wait(2): each entry carries the pointer that was registered with a watched descriptor.
  abbrev pub Reported : World k → List (ℕ × ℕ) → Type 0
  Reported w [] = Unit {0}
  Reported w ((id, revents) ∷ rest) =
      ((fd : ℕ) × (mask : ℕ) × (k.interest w.kernel fd ≡ some (mask, id))) × Reported w rest

  abbrev Known : World k → ℕ → Type 0
  Known w id = w.channels (w.chans id).fd ≡ some id

  -- What the kernel watches belongs to a channel that the poller knows.
  watched-Known :
      (w : World k)
      → Inv k w
      → (fd mask id : ℕ) → k.interest w.kernel fd ≡ some (mask, id)
      → Known w id
  watched-Known w i fd mask id e = by_slot (w.channels fd) refl
    where
      by_agree :
          (j : ℕ) → w.channels fd ≡ some j → (w.chans j).fd ≡ fd → AgreesIn k w j → Known w id
      by_agree j s o (fresh x n) = absurd (n (ap w.channels o ∙ s))
      by_agree j s o (idle x n t) =
          let u : k.interest w.kernel fd ≡ none = ap (k.interest w.kernel) (sym o) ∙ t in cc
      by_agree j s o (active x n t) =
          let u : k.interest w.kernel fd ≡ some ((w.chans j).events, j) =
            ap (k.interest w.kernel) (sym o) ∙ t in
          subst (Known w) (ground (arith, u, e)) n

      by_slot : (slot : Option ℕ) → w.channels fd ≡ slot → Known w id
      by_slot none s = let n : k.interest w.kernel fd ≡ none = i.free fd s in cc
      by_slot (some j) s = by_agree j s (i.owner fd j s) (i.agree j)

  -- From `w` to `v` only the revents of channels changed.
  pub record Marked (w v : World k) : Type 0 where
    pub channels : v.channels ≡ w.channels
    pub kernel : v.kernel ≡ w.kernel
    pub fd : (j : ℕ) → (v.chans j).fd ≡ (w.chans j).fd
    pub index : (j : ℕ) → (v.chans j).index ≡ (w.chans j).index
    pub events : (j : ℕ) → (v.chans j).events ≡ (w.chans j).events

  Marked-refl : (w : World k) → Marked w w
  Marked-refl w = record {
    channels = refl;
    kernel = refl;
    fd = λ j. refl;
    index = λ j. refl;
    events = λ j. refl;
  }

  Marked-trans : {u v w : World k} → Marked u v → Marked v w → Marked u w
  Marked-trans a b = record {
    channels = b.channels ∙ a.channels;
    kernel = b.kernel ∙ a.kernel;
    fd = λ j. b.fd j ∙ a.fd j;
    index = λ j. b.index j ∙ a.index j;
    events = λ j. b.events j ∙ a.events j;
  }

  abbrev marked : World k → ℕ → ℕ → World k
  marked w id revents = store k w id (record (w.chans id) { revents = revents })

  marked-field :
      {A : Type 0} (f : Channel → A) (w : World k) (id revents : ℕ)
      → f (record (w.chans id) { revents = revents }) ≡ f (w.chans id)
      → (j : ℕ) → f ((marked w id revents).chans j) ≡ f (w.chans j)
  marked-field f w id revents same j = elim (ℕ_discrete j id) [
    | yes e ↦
        rw e (ap f (update_self w.chans id (record (w.chans id) { revents = revents })) ∙ same)
    | no ne ↦ ap f (update_ne w.chans id _ j ne)
  ]

  marked-Marked : (w : World k) (id revents : ℕ) → Marked w (marked w id revents)
  marked-Marked w id revents = record {
    channels = refl;
    kernel = refl;
    fd = marked-field (λ (c : Channel). c.fd) w id revents refl;
    index = marked-field (λ (c : Channel). c.index) w id revents refl;
    events = marked-field (λ (c : Channel). c.events) w id revents refl;
  }

  abbrev AllKnown : World k → List (ℕ × ℕ) → Type 0
  AllKnown w [] = Unit {0}
  AllKnown w ((id, revents) ∷ rest) = Known w id × AllKnown w rest

  Known-Marked : {w v : World k} → Marked w v → (id : ℕ) → Known w id → Known v id
  Known-Marked {w} {v} m id e = rw m.channels (ap w.channels (m.fd id) ∙ e)

  AllKnown-Marked :
      {w v : World k} → Marked w v → (events : List (ℕ × ℕ)) → AllKnown w events → AllKnown v events
  AllKnown-Marked m [] a = tt
  AllKnown-Marked {w} {v} m ((id, revents) ∷ rest) a =
      (Known-Marked {w = w} {v = v} m id a.0, AllKnown-Marked m rest a.1)

  abbrev ids : List (ℕ × ℕ) → List ℕ
  ids = map (λ e. e.0)

  fill_active_channels-Marked :
      (w : World k) (events : List (ℕ × ℕ))
      → AllKnown w events
      → (v : World k) × (fill_active_channels k w events ≡ ok (v, ids events)) × Marked w v
  unfolding fill_active_channels
  fill_active_channels-Marked w [] a = (w, refl, Marked-refl w)
  fill_active_channels-Marked w ((id, revents) ∷ rest) a =
      let m = marked-Marked w id revents in
      let (v, run, n) =
        fill_active_channels-Marked (marked w id revents) rest
          (AllKnown-Marked {w = w} {v = marked w id revents} m rest a.1) in
      (v, ground (arith, run, a.0), Marked-trans {v = marked w id revents} m n)

  Agrees-Marked :
      (id : ℕ) (c d : Channel) (slot : Option ℕ) (watched : Option (ℕ × ℕ))
      → d.index ≡ c.index
      → d.events ≡ c.events
      → Agrees id c slot watched
      → Agrees id d slot watched
  Agrees-Marked id c d slot watched p q (fresh x s) = fresh (p ∙ x) s
  Agrees-Marked id c d slot watched p q (active x s t) =
      active (p ∙ x) s (t ∙ ap (λ e. some (e, id)) (sym q))
  Agrees-Marked id c d slot watched p q (idle x s t) = idle (p ∙ x) s t

  Marked-Inv : (w v : World k) → Marked w v → Inv k w → Inv k v
  Marked-Inv w v m i = record {
    agree = λ j.
        rw (m.channels, m.kernel)
          (simp (m.fd j)
            (Agrees-Marked j (w.chans j) (v.chans j) _ _ (m.index j) (m.events j) (i.agree j)));
    free = λ fd e. rw m.kernel (i.free fd (sym (ap (λ (f : ℕ → Option ℕ). f fd) m.channels) ∙ e));
    owner = λ fd j e. m.fd j ∙ i.owner fd j (sym (ap (λ (f : ℕ → Option ℕ). f fd) m.channels) ∙ e);
  }

  Reported-AllKnown :
      (w : World k) → Inv k w → (events : List (ℕ × ℕ)) → Reported w events → AllKnown w events
  Reported-AllKnown w i [] r = tt
  Reported-AllKnown w i ((id, revents) ∷ rest) (r, rs) =
      (watched-Known w i r.0 r.1 id r.2, Reported-AllKnown w i rest rs)

  -- A poll whose entries come from watched descriptors, and are at most as many as the vector holds,
  -- fails no assertion: it activates exactly the channels of the entries, in order, keeps the poller in
  -- step with the kernel, and doubles the vector exactly when the entries filled it.
  pub poll-active :
      (w : World k) (size : ℕ) (events : List (ℕ × ℕ))
      → Inv k w
      → Reported w events
      → length events ≤ size
      → (v : World k) × (poll k w size (some events)
          ≡ ok (v, map (λ e. e.0) events, if length events == size then size * 2 else size))
        × Inv k v
  unfolding poll
  poll-active w size [] i r fits = (w, ground arith, i)
  poll-active w size (e ∷ rest) i r fits =
      let (v, run, m) =
        fill_active_channels-Marked w (e ∷ rest) (Reported-AllKnown w i (e ∷ rest) r) in
      (v, rw (le→leb (length (e ∷ rest)) size fits) (rw run), Marked-Inv w v m i)
