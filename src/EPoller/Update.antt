-- ===== src/EPoller/Update.antt =====
-- updateChannel and removeChannel keep the poller and the kernel in step.
use native.Mathlib.Decide.{ℕ_discrete}
use chaonet.Common.{
  ℕ, ◌≡◌, refl, ap, ◌∙◌, ◌≢◌, ◌⊎◌, inl, inr, Option, none, some, arith, ok, true, update,
  update_self, update_same, is_some, ℤ,
}
use chaonet.Channel.{Channel}
use chaonet.EPoller.Kernel.{Epoll}
use chaonet.EPoller.{
  World, new, added, deleted, enter, change, update_kernel, ctl, update_channel, remove_channel,
  change_events,
}
use chaonet.EPoller.Inv.{Agrees, fresh, active, idle, AgreesIn, Inv, landed, landed-Inv}

module _ (k : Epoll) where
  -- After a change of its interest a channel is in the map, and the kernel watches it for exactly that
  -- interest, unless the interest is empty.
  pub record Updated (w : World k) (id events : ℕ) (v : World k) : Type 0 where
    pub inv : Inv k v
    pub slot : v.channels (w.chans id).fd ≡ some id
    pub stored : (v.chans id).events ≡ events
    pub watched :
        (k.interest v.kernel (w.chans id).fd ≡ some (events, id))
        ⊎ ((events ≡ 0) × (k.interest v.kernel (w.chans id).fd ≡ none))

  module _ (w : World k) (id events : ℕ) (i : Inv k w) where
    abbrev c : Channel
    c = w.chans id

    abbrev changed : Channel
    changed = record c { events = events }

    abbrev with_index : ℤ → Channel
    with_index n = record c { events = events; index = n }

    abbrev Outcome : Type 0
    Outcome = (v : World k) × (change_events k w id events ≡ ok v) × Updated w id events v

    landed-Updated :
        (c' : Channel) (map : ℕ → Option ℕ) (t : k.State) (watched : Option (ℕ × ℕ))
        → c'.fd ≡ c.fd
        → c'.events ≡ events
        → (w.channels c.fd ≡ none) ⊎ (w.channels c.fd ≡ some id)
        → ((g : ℕ) → map g ≡ update w.channels c.fd (some id) g)
        → ((g : ℕ) → k.interest t g ≡ update (k.interest w.kernel) c.fd watched g)
        → Agrees id c' (some id) watched
        → (watched ≡ some (events, id)) ⊎ ((events ≡ 0) × (watched ≡ none))
        → Updated w id events (landed k w id c' map t (some id) watched)
    landed-Updated c' map t watched same_fd same_events before at_map at_kernel a shown = record {
      inv =
          landed-Inv k w id c' map t (some id) watched i c.fd refl same_fd before (inr refl) at_map
            at_kernel a (λ x. cc);
      slot = at_map c.fd ∙ update_self w.channels c.fd (some id);
      stored = ap (λ (x : Channel). x.events) (update_self w.chans id c') ∙ same_events;
      watched = elim shown [ inl e ↦ inl (here ∙ e) | inr (zero, e) ↦ inr (zero, here ∙ e) ];
    }
      where
        here : k.interest t c.fd ≡ watched
        here = at_kernel c.fd ∙ update_self (k.interest w.kernel) c.fd watched

    -- A channel that is not yet in the map.
    fresh_case : c.index ≡ new → w.channels c.fd ≡ none → Outcome
    unfolding change_events update_channel enter update_kernel ctl
    fresh_case e empty =
        let (t, done, after) = k.add_ok w.kernel c.fd events id (i.free c.fd empty) in
        (
          _,
          ground (arith, done),
          landed-Updated (with_index added) (update w.channels c.fd (some id)) t (some (events, id))
              refl refl (inl empty) (λ g. refl) after (active refl refl refl) (inl refl),
        )

    -- One that the kernel does not watch any more.
    idle_case :
        c.index ≡ deleted → w.channels c.fd ≡ some id → k.interest w.kernel c.fd ≡ none → Outcome
    unfolding change_events update_channel enter update_kernel ctl
    idle_case e here gone =
        let (t, done, after) = k.add_ok w.kernel c.fd events id gone in
        (
          landed k w id (with_index added) w.channels t (some id) (some (events, id)),
          ground (arith, done),
          landed-Updated (with_index added) w.channels t (some (events, id)) refl refl (inr here)
              (update_same w.channels c.fd (some id) here) after (active refl refl refl) (inl refl),
        )

    -- One that the kernel watches, by whether the new interest is empty.
    module _ (e : c.index ≡ added) (here : w.channels c.fd ≡ some id)
        (there : is_some (k.interest w.kernel c.fd) ≡ true) where
      mod_case : events ≢ 0 → Outcome
      unfolding change_events update_channel change update_kernel ctl
      mod_case ne =
          let (t, done, after) = k.mod_ok w.kernel c.fd events id there in
          (
            landed k w id changed w.channels t (some id) (some (events, id)),
            ground (arith, done),
            landed-Updated changed w.channels t (some (events, id)) refl refl (inr here)
                (update_same w.channels c.fd (some id) here) after (active e refl refl) (inl refl),
          )

      del_case : events ≡ 0 → Outcome
      unfolding change_events update_channel change update_kernel ctl
      del_case zero =
          let (t, done, after) = k.del_ok w.kernel c.fd there in
          (
            landed k w id (with_index deleted) w.channels t (some id) none,
            ground (arith, done),
            landed-Updated (with_index deleted) w.channels t none refl refl (inr here)
                (update_same w.channels c.fd (some id) here) after (idle refl refl refl)
                (inr (zero, refl)),
          )

    cases : (c.index ≡ new → w.channels c.fd ≡ none) → AgreesIn k w id → Outcome
    cases unused (fresh e s) = fresh_case e (unused e)
    cases unused (idle e s t) = idle_case e s t
    cases unused (active e s t) = elim (ℕ_discrete events 0) [
      | yes zero ↦ del_case e s (rw t) zero
      | no ne ↦ mod_case e s (rw t) ne
    ]

  -- Changing a channel's interest never fails an assertion of updateChannel and keeps the poller, the
  -- channels and the kernel in step, if the descriptor of a new channel is not in the map yet.
  -- Afterwards the kernel watches the descriptor for the new interest, or the interest is empty and the
  -- kernel does not watch it.
  pub change_events-Updated :
      (w : World k) (id events : ℕ)
      → Inv k w
      → ((w.chans id).index ≡ new → w.channels (w.chans id).fd ≡ none)
      → (v : World k) × (change_events k w id events ≡ ok v) × Updated w id events v
  change_events-Updated w id events i unused = cases w id events i unused (i.agree id)

  -- After removal the poller has forgotten the channel, and the kernel does not watch its descriptor.
  pub record Removed (w : World k) (id : ℕ) (v : World k) : Type 0 where
    pub inv : Inv k v
    pub slot : v.channels (w.chans id).fd ≡ none
    pub watched : k.interest v.kernel (w.chans id).fd ≡ none
    pub index : (v.chans id).index ≡ new

  module _ (w : World k) (id : ℕ) (i : Inv k w) where
    abbrev old : Channel
    old = w.chans id

    landed-Removed :
        (t : k.State)
        → (w.channels old.fd ≡ some id)
        → ((g : ℕ) → k.interest t g ≡ update (k.interest w.kernel) old.fd none g)
        → Removed w id
            (landed k w id (record old { index = new }) (update w.channels old.fd none) t none none)
    landed-Removed t here at_kernel = record {
      inv =
          landed-Inv k w id (record old { index = new }) (update w.channels old.fd none) t none none
            i old.fd refl refl (inr here) (inl refl) (λ g. refl) at_kernel (fresh refl (λ e. cc))
            (λ e. refl);
      slot = update_self w.channels old.fd none;
      watched = at_kernel old.fd ∙ update_self (k.interest w.kernel) old.fd none;
      index = ap (λ (x : Channel). x.index) (update_self w.chans id (record old { index = new }));
    }

    remove_cases :
        old.events ≡ 0
        → old.index ≢ new
        → AgreesIn k w id
        → (v : World k) × (remove_channel k w id old ≡ ok v) × Removed w id v
    unfolding remove_channel update_kernel ctl
    remove_cases zero there (fresh e s) = absurd (there e)
    remove_cases zero there (idle e s t) = (
      landed k w id (record old { index = new }) (update w.channels old.fd none) w.kernel none none,
      ground arith,
      landed-Removed w.kernel s (update_same (k.interest w.kernel) old.fd none t),
    )
    remove_cases zero there (active e s t) =
        let (u, done, after) = k.del_ok w.kernel old.fd (rw t) in
        (
          landed k w id (record old { index = new }) (update w.channels old.fd none) u none none,
          ground (arith, done),
          landed-Removed u s after,
        )

  -- Removing a channel that the poller knows succeeds when its interest is empty: the poller forgets it
  -- and the kernel does not watch it.
  pub remove_channel-Removed :
      (w : World k) (id : ℕ)
      → Inv k w
      → (w.chans id).events ≡ 0
      → (w.chans id).index ≢ new
      → (v : World k) × (remove_channel k w id (w.chans id) ≡ ok v) × Removed w id v
  remove_channel-Removed w id i zero there = remove_cases w id i zero there (i.agree id)
