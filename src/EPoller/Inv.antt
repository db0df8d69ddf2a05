-- ===== src/EPoller/Inv.antt =====
-- What holds of a poller between calls: each channel's index, its place in the map and its entry in the
-- kernel agree.
use native.Mathlib.Decide.{ℕ_discrete}
use chaonet.Common.{
  ℕ, ◌≡◌, subst, sym, ap, ◌∙◌, ◌≢◌, ◌⊎◌, inl, inr, Option, none, some, arith, update, update_self,
  update_ne,
}
use chaonet.Channel.{Channel}
use chaonet.EPoller.Kernel.{Epoll}
use chaonet.EPoller.{World, new, added, deleted}

-- A channel outside the poller, one that the kernel watches, and one that is only remembered.
pub data Agrees (id : ℕ) (c : Channel) (slot : Option ℕ) (watched : Option (ℕ × ℕ)) : Type 0 where
  fresh : c.index ≡ new → slot ≢ some id → Agrees id c slot watched
  active :
      c.index ≡ added → slot ≡ some id → watched ≡ some (c.events, id) → Agrees id c slot watched
  idle : c.index ≡ deleted → slot ≡ some id → watched ≡ none → Agrees id c slot watched

module _ (k : Epoll) where
  abbrev pub AgreesIn : World k → ℕ → Type 0
  AgreesIn w id = let c = w.chans id in Agrees id c (w.channels c.fd) (k.interest w.kernel c.fd)

  -- An entry of the map belongs to a channel of that descriptor; what is not in the map is not watched.
  pub record Inv (w : World k) : Type 0 where
    pub agree : (id : ℕ) → AgreesIn w id
    pub free : (fd : ℕ) → w.channels fd ≡ none → k.interest w.kernel fd ≡ none
    pub owner : (fd id : ℕ) → w.channels fd ≡ some id → (w.chans id).fd ≡ fd

  -- From `w` to `v` only the channel `id` and its descriptor changed, and what they show agrees.
  pub record Changed (w v : World k) (id fd : ℕ) : Type 0 where
    pub fd_before : (w.chans id).fd ≡ fd
    pub fd_after : (v.chans id).fd ≡ fd
    pub slot_before : (w.channels fd ≡ none) ⊎ (w.channels fd ≡ some id)
    pub slot_after : (v.channels fd ≡ none) ⊎ (v.channels fd ≡ some id)
    pub agree_after : AgreesIn v id
    pub free_after : v.channels fd ≡ none → k.interest v.kernel fd ≡ none
    pub others : (j : ℕ) → j ≢ id → v.chans j ≡ w.chans j
    pub slots : (g : ℕ) → g ≢ fd → v.channels g ≡ w.channels g
    pub kernel : (g : ℕ) → g ≢ fd → k.interest v.kernel g ≡ k.interest w.kernel g

  module _ {w v : World k} {id fd : ℕ} (i : Inv w) (ch : Changed w v id fd) where
    -- A channel other than `id` has no claim on `fd`.
    not_mine : (j : ℕ) → j ≢ id → w.channels fd ≢ some j
    not_mine j ne e = elim ch.slot_before [ inl n ↦ cc | inr s ↦ ne (ground arith) ]

    other-Agrees :
        (j : ℕ) (c : Channel)
        → j ≢ id
        → Agrees j c (w.channels c.fd) (k.interest w.kernel c.fd)
        → Agrees j c (v.channels c.fd) (k.interest v.kernel c.fd)
    other-Agrees j c ne a = elim (ℕ_discrete c.fd fd) [
      | no far ↦ rw (ch.slots c.fd far, ch.kernel c.fd far) a
      | yes here ↦ at_fd here a
    ]
      where
        kept : c.fd ≡ fd → v.channels c.fd ≢ some j
        kept here e = elim ch.slot_after [ inl n ↦ cc | inr s ↦ ne (ground arith) ]

        at_fd :
            c.fd ≡ fd
            → Agrees j c (w.channels c.fd) (k.interest w.kernel c.fd)
            → Agrees j c (v.channels c.fd) (k.interest v.kernel c.fd)
        at_fd here (fresh x s) = fresh x (kept here)
        at_fd here (active x s t) = absurd (not_mine j ne (ap w.channels (sym here) ∙ s))
        at_fd here (idle x s t) = absurd (not_mine j ne (ap w.channels (sym here) ∙ s))

    pub Changed-Inv : Inv v
    Changed-Inv = record { agree = agree; free = free; owner = owner }
      where
        agree : (j : ℕ) → AgreesIn v j
        agree j = elim (ℕ_discrete j id) [
          | yes e ↦ rw e ch.agree_after
          | no ne ↦ rw (ch.others j ne) (other-Agrees j (w.chans j) ne (i.agree j))
        ]

        free : (g : ℕ) → v.channels g ≡ none → k.interest v.kernel g ≡ none
        free g e = elim (ℕ_discrete g fd) [
          | yes here ↦ rw here (ch.free_after (ap v.channels (sym here) ∙ e))
          | no far ↦ ch.kernel g far ∙ i.free g (sym (ch.slots g far) ∙ e)
        ]

        owner : (g j : ℕ) → v.channels g ≡ some j → (v.chans j).fd ≡ g
        owner g j e = elim (ℕ_discrete g fd) [
          | yes here ↦
              ap (λ n. (v.chans n).fd) (mine (ap v.channels (sym here) ∙ e))
              ∙ ch.fd_after
              ∙ sym here
          | no far ↦
              let before : w.channels g ≡ some j = sym (ch.slots g far) ∙ e in
              let ne : j ≢ id =
                λ me. far (sym (i.owner g j before) ∙ ap (λ n. (w.chans n).fd) me ∙ ch.fd_before) in
              ap (λ (c : Channel). c.fd) (ch.others j ne) ∙ i.owner g j before
        ]
          where
            mine : v.channels fd ≡ some j → j ≡ id
            mine here = elim ch.slot_after [ inl n ↦ cc | inr s ↦ ground arith ]

  -- The world after a call on `id` that stores the channel as `c`, gives its descriptor the map entry
  -- `slot` and the kernel entry `watched`.
  module _ (w : World k) (id : ℕ) (c : Channel) (channels : ℕ → Option ℕ) (t : k.State)
      (slot : Option ℕ) (watched : Option (ℕ × ℕ)) where
    abbrev pub landed : World k
    landed = record { chans = update w.chans id c; channels = channels; kernel = t }

    pub landed-Inv :
        Inv w
        → (fd : ℕ) → (w.chans id).fd ≡ fd
        → c.fd ≡ fd
        → (w.channels fd ≡ none) ⊎ (w.channels fd ≡ some id)
        → (slot ≡ none) ⊎ (slot ≡ some id)
        → ((g : ℕ) → channels g ≡ update w.channels fd slot g)
        → ((g : ℕ) → k.interest t g ≡ update (k.interest w.kernel) fd watched g)
        → Agrees id c slot watched
        → (slot ≡ none → watched ≡ none)
        → Inv landed
    landed-Inv i fd before after slot_before slot_after map kernel a freed =
        Changed-Inv {w = w} {v = landed} {id = id} {fd = fd} i (record {
          fd_before = before;
          fd_after = ap (λ (x : Channel). x.fd) mine ∙ after;
          slot_before = slot_before;
          slot_after = elim slot_after [ inl n ↦ inl (at_map ∙ n) | inr s ↦ inr (at_map ∙ s) ];
          agree_after = agree;
          free_after = λ e. at_kernel ∙ freed (sym at_map ∙ e);
          others = λ j ne. update_ne w.chans id c j ne;
          slots = λ g ne. map g ∙ update_ne w.channels fd slot g ne;
          kernel = λ g ne. kernel g ∙ update_ne (k.interest w.kernel) fd watched g ne;
        })
      where
        mine : update w.chans id c id ≡ c
        mine = update_self w.chans id c

        at_map : channels fd ≡ slot
        at_map = map fd ∙ update_self w.channels fd slot

        at_kernel : k.interest t fd ≡ watched
        at_kernel = kernel fd ∙ update_self (k.interest w.kernel) fd watched

        agree : AgreesIn landed id
        agree =
            subst (λ (x : Channel). Agrees id x (channels x.fd) (k.interest t x.fd)) (sym mine)
              (subst (λ g. Agrees id c (channels g) (k.interest t g)) (sym after)
                (rw (at_map, at_kernel) a))
