-- ===== src/EPoller.antt =====
-- chaonet/src/EPoller.cpp and EPoller.h: which channels a loop watches. The kernel's epoll instance is
-- a parameter; channels are shared objects, kept in `chans` by their address.
pub mod Kernel
pub mod Inv
pub mod Update
pub mod Poll
mod Tests
use Kernel.{Epoll}
use chaonet.Common.{
  ℕ, suc, ◌+◌, ◌*◌, ℤ, pos, negsuc, Bool, not, ◌&&◌, ◌||◌, Option, none, some, List, [], ◌∷◌, ◌++◌,
  Result, ok, err, bad_function_call, ◌>>=◌, ◌>>◌, assert, leb, ltb, ◌==◌, ◌==ℤ◌, if◌then◌else◌,
  update, is_some, holds_key, length,
}
use chaonet.Channel.{Channel, is_none_event}

-- kNew, kAdded, kDeleted.
abbrev pub new : ℤ
new = negsuc 0

abbrev pub added : ℤ
added = pos 1

abbrev pub deleted : ℤ
deleted = pos 2

abbrev pub init_event_list_size : ℕ
init_event_list_size = 16

pub data Operation : Type 0 where
  add mod_ del : Operation

module _ (k : Epoll) where
  pub record World : Type 0 where
    pub chans : ℕ → Channel
    pub channels : ℕ → Option ℕ
    pub kernel : k.State

  ctl : Operation → k.State → Channel → ℕ → Option k.State
  ctl add s c id = k.ctl_add s c.fd c.events id
  ctl mod_ s c id = k.ctl_mod s c.fd c.events id
  ctl del s c id = k.ctl_del s c.fd

  abbrev or_same : k.State → Option k.State → k.State
  or_same s none = s
  or_same s (some t) = t

  -- A failing epoll_ctl is logged, and nothing changes.
  update_kernel : Operation → World → ℕ → Channel → World
  unfolding ctl
  update_kernel op w id c = record w { kernel = or_same w.kernel (ctl op w.kernel c id) }

  abbrev pub store : World → ℕ → Channel → World
  store w id c = record w { chans = update w.chans id c }

  -- What updateChannel does first with a channel that is not added: a new one enters the map.
  enter : World → ℕ → Channel → Result World
  enter w id c =
      if c.index ==ℤ new
      then (do
        assert (not (is_some (w.channels c.fd)))
        ok (record w { channels = update w.channels c.fd (some id) }))
      else (do assert (is_some (w.channels c.fd)); assert (holds_key (w.channels c.fd) id); ok w)

  -- What it does with one that is added.
  change : World → ℕ → Channel → Result World
  unfolding update_kernel
  change w id c = do
    assert (is_some (w.channels c.fd))
    assert (holds_key (w.channels c.fd) id)
    assert (c.index ==ℤ added)
    ok (
        if is_none_event c
        then store (update_kernel del w id c) id (record c { index = deleted })
        else store (update_kernel mod_ w id c) id c)

  -- `c` is the channel at `id`; the world that is returned holds it as the call leaves it.
  pub update_channel : World → ℕ → Channel → Result World
  unfolding enter change update_kernel
  update_channel w id c =
      if c.index ==ℤ new || c.index ==ℤ deleted
      then (do
        v ← enter w id c
        let c' = record c { index = added }
        ok (store (update_kernel add v id c') id c'))
      else change w id c

  pub remove_channel : World → ℕ → Channel → Result World
  unfolding update_kernel
  remove_channel w id c = do
    assert (is_some (w.channels c.fd))
    assert (holds_key (w.channels c.fd) id)
    assert (is_none_event c)
    assert (c.index ==ℤ added || c.index ==ℤ deleted)
    let v = record w { channels = update w.channels c.fd none }
    ok (
        store (if c.index ==ℤ added then update_kernel del v id c else v) id
          (record c { index = new }))

  -- A change of a channel's interest, with the Channel::update that follows it.
  pub change_events : World → ℕ → ℕ → Result World
  unfolding update_channel
  change_events w id events = update_channel w id (record (w.chans id) { events = events })

  -- One entry that epoll_wait returned: data.ptr and the events.
  abbrev pub Event : Type 0
  Event = ℕ × ℕ

  pub fill_active_channels : World → List Event → Result (World × List ℕ)
  fill_active_channels w [] = ok (w, [])
  fill_active_channels w ((id, revents) ∷ rest) =
      let c = w.chans id in
      let v = record w { chans = update w.chans id (record c { revents = revents }) } in
      let later = fill_active_channels v rest in
      (do
        assert (is_some (w.channels c.fd))
        assert (holds_key (w.channels c.fd) id)
        (u, active) ← later
        ok (u, id ∷ active))

  -- `ready` is what epoll_wait returned, `none` for -1; `size` is events_.size(). The vector doubles
  -- when it was filled.
  pub poll : World → ℕ → Option (List Event) → Result (World × List ℕ × ℕ)
  unfolding fill_active_channels
  poll w size none = ok (w, [], size)
  poll w size (some []) = ok (w, [], size)
  poll w size (some (e ∷ rest)) = do
    let events = e ∷ rest
    assert (leb (length events) size)
    (u, active) ← fill_active_channels w events
    ok (u, active, if length events == size then size * 2 else size)
