-- ===== src/EPoller/Tests.antt =====
-- A poller over a concrete kernel: an interest list as a function.
use chaonet.Common.{
  ℕ, ◌≡◌, refl, inr, inl, Option, none, some, arith, ok, true, false, update, is_some, [], ◌∷◌,
  Bool, not,
}
use chaonet.Channel.{new_channel}
use chaonet.EPoller.Kernel.{Epoll}
use chaonet.EPoller.{World, added, change_events, remove_channel, poll}
use chaonet.EPoller.Inv.{Inv, fresh, active, landed, landed-Inv}
use chaonet.EPoller.Update.{Updated, Removed, change_events-Updated, remove_channel-Removed}
use chaonet.EPoller.Poll.{poll-active}

abbrev Interest : Type 0
Interest = ℕ → Option (ℕ × ℕ)

abbrev put : Interest → ℕ → ℕ → ℕ → Bool → Option Interest
put s fd events ptr true = some (update s fd (some (events, ptr)))
put s fd events ptr false = none

abbrev drop_at : Interest → ℕ → Bool → Option Interest
drop_at s fd true = some (update s fd none)
drop_at s fd false = none

abbrev table : Epoll
table = record {
  State = Interest;
  interest = λ s. s;
  ctl_add = λ s fd events ptr. put s fd events ptr (not (is_some (s fd)));
  ctl_mod = λ s fd events ptr. put s fd events ptr (is_some (s fd));
  ctl_del = λ s fd. drop_at s fd (is_some (s fd));
  add_ok = λ s fd events ptr e. (update s fd (some (events, ptr)), rw e, λ g. refl);
  mod_ok = λ s fd events ptr e. (update s fd (some (events, ptr)), rw e, λ g. refl);
  del_ok = λ s fd e. (update s fd none, rw e, λ g. refl);
}

-- Channel `n` has descriptor `n`; none is registered.
abbrev idle_loop : World table
idle_loop = record { chans = new_channel; channels = λ fd. none; kernel = λ fd. none }

idle_loop-Inv : Inv table idle_loop
idle_loop-Inv = record {
  agree = λ id. fresh refl (λ e. cc);
  free = λ fd e. refl;
  owner = λ fd id e. cc;
}

-- Channel 5 is registered for `events`.
abbrev registered : ℕ → World table
registered events =
    landed table idle_loop 5 (record (new_channel 5) { events = events; index = added })
      (update (λ fd. none) 5 (some 5)) (update (λ fd. none) 5 (some (events, 5))) (some 5)
      (some (events, 5))

registered-Inv : (events : ℕ) → Inv table (registered events)
registered-Inv events =
    landed-Inv table idle_loop 5 (record (new_channel 5) { events = events; index = added })
      (update (λ fd. none) 5 (some 5)) (update (λ fd. none) 5 (some (events, 5))) (some 5)
      (some (events, 5)) idle_loop-Inv 5 refl refl (inl refl) (inr refl) (λ g. refl) (λ g. refl)
      (active refl refl refl) (λ e. cc)

change_events-Updated_example :
    (v : World table) × (change_events table idle_loop 5 3 ≡ ok v) × Updated table idle_loop 5 3 v
change_events-Updated_example = change_events-Updated table idle_loop 5 3 idle_loop-Inv (λ e. refl)

remove_channel-Removed_example :
    (v : World table) × (remove_channel table (registered 0) 5 ((registered 0).chans 5) ≡ ok v)
    × Removed table (registered 0) 5 v
remove_channel-Removed_example =
    remove_channel-Removed table (registered 0) 5 (registered-Inv 0) refl (λ e. cc)

poll-active_example :
    (v : World table) × (poll table (registered 3) 16 (some ((5, 1) ∷ [])) ≡ ok (v, 5 ∷ [], 16))
    × Inv table v
poll-active_example =
    poll-active table (registered 3) 16 ((5, 1) ∷ []) (registered-Inv 3) ((5, 3, refl), tt)
      (omega arith)
