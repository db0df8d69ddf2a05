-- ===== src/EPoller/Kernel.antt =====
-- The kernel's side of epoll, as epoll(7) and epoll_ctl(2) document it: the interest list holds a mask
-- and a pointer for each descriptor; add fails on one that is there, mod and del on one that is not.
use chaonet.Common.{ℕ, ◌≡◌, Option, none, some, update, is_some, true}

-- `none` is the result -1 of epoll_ctl.
pub record Epoll : Type 1 where
  pub State : Type 0
  pub interest : State → ℕ → Option (ℕ × ℕ)
  pub ctl_add : State → ℕ → ℕ → ℕ → Option State
  pub ctl_mod : State → ℕ → ℕ → ℕ → Option State
  pub ctl_del : State → ℕ → Option State
  pub add_ok :
      (s : State) (fd events ptr : ℕ)
      → interest s fd ≡ none
      → (t : State) × (ctl_add s fd events ptr ≡ some t)
        × ((g : ℕ) → interest t g ≡ update (interest s) fd (some (events, ptr)) g)
  pub mod_ok :
      (s : State) (fd events ptr : ℕ)
      → is_some (interest s fd) ≡ true
      → (t : State) × (ctl_mod s fd events ptr ≡ some t)
        × ((g : ℕ) → interest t g ≡ update (interest s) fd (some (events, ptr)) g)
  pub del_ok :
      (s : State) (fd : ℕ)
      → is_some (interest s fd) ≡ true
      → (t : State) × (ctl_del s fd ≡ some t)
        × ((g : ℕ) → interest t g ≡ update (interest s) fd none g)
