-- ===== src/Poller.antt =====
-- chaonet/src/Poller.cpp and chaonet/include/Poller.h: the poller over poll(2). Channels are shared
-- objects, kept in `chans` by their address. A descriptor that poll is to pass over is -fd - 1.
pub mod Ignored
mod Tests
use chaonet.Common.{
  ℕ, zero, suc, ◌+◌, ◌-◌, ℤ, pos, negsuc, ◌==ℤ◌, Bool, true, false, not, ◌&&◌, ◌||◌, List, [], ◌∷◌,
  ◌++◌, Option, none, some, Result, ok, err, null_pointer, out_of_range, ◌>>=◌, ◌>>◌, assert, ◌==◌,
  ltb, if◌then◌else◌, is_some, holds_key, update, length, get_elem?, set, take,
}
use chaonet.Channel.{Channel, is_none_event}

pub record PollFd : Type 0 where
  pub fd : ℤ
  pub events : ℕ
  pub revents : ℕ

pub record Poller : Type 0 where
  pub pollfds : List PollFd
  pub channels : ℕ → Option ℕ
  pub chans : ℕ → Channel

abbrev pub store : Poller → ℕ → Channel → Poller
store p id c = record p { chans = update p.chans id c }

-- A channel that the poller does not know yet.
abbrev pub append_channel : Poller → ℕ → Poller
append_channel p id =
    let c = p.chans id in
    let pfd : PollFd = record { fd = pos c.fd; events = c.events; revents = 0 } in
    record (store p id (record c { index = pos (length p.pollfds) })) {
      pollfds = p.pollfds ++ pfd ∷ [];
      channels = update p.channels c.fd (some id);
    }

-- The entry of a channel, changed.
abbrev pub changed : PollFd → Channel → PollFd
changed pfd c = record {
  fd = if is_none_event c then negsuc c.fd else pfd.fd;
  events = c.events;
  revents = 0;
}

pub change_entry : Poller → Channel → ℕ → Option PollFd → Result Poller
change_entry p c idx none = err out_of_range
change_entry p c idx (some pfd) =
    assert (pfd.fd ==ℤ pos c.fd || pfd.fd ==ℤ negsuc c.fd)
    >> ok (record p { pollfds = set p.pollfds idx (changed pfd c) })

pub update_at : Poller → ℕ → ℤ → Result Poller
unfolding change_entry
update_at p id (negsuc n) =
    assert (not (is_some (p.channels (p.chans id).fd))) >> ok (append_channel p id)
update_at p id (pos idx) =
    assert (is_some (p.channels (p.chans id).fd))
    >> (assert (holds_key (p.channels (p.chans id).fd) id)
        >> (assert (ltb idx (length p.pollfds))
            >> change_entry p (p.chans id) idx (get_elem? p.pollfds idx)))

pub update_channel : Poller → ℕ → Result Poller
unfolding update_at
update_channel p id = update_at p id (p.chans id).index

-- The descriptor of an entry, also of one that is passed over.
abbrev pub plain_fd : ℤ → ℕ
plain_fd (pos n) = n
plain_fd (negsuc n) = n

-- channels_[channelAtEnd]->set_index(idx)
move_channel : Poller → Option ℕ → ℕ → Result Poller
move_channel p none idx = err null_pointer
move_channel p (some id) idx = ok (store p id (record (p.chans id) { index = pos idx }))

-- The end of removeChannel: the last entry takes the place of the one at `idx`.
remove_entry : Poller → ℕ → Option PollFd → Result Poller
unfolding move_channel
remove_entry p idx none = err out_of_range
remove_entry p idx (some last) =
    let popped = take (length p.pollfds - 1) p.pollfds in
    if idx == length p.pollfds - 1
    then ok (record p { pollfds = popped })
    else move_channel (record p { pollfds = take (length p.pollfds - 1) (set p.pollfds idx last) })
        (p.channels (plain_fd last.fd)) idx

remove_known : Poller → Channel → ℕ → Option PollFd → Result Poller
unfolding remove_entry
remove_known p c idx none = err out_of_range
remove_known p c idx (some pfd) =
    assert (pfd.fd ==ℤ negsuc c.fd && pfd.events == c.events)
    >> remove_entry (record p { channels = update p.channels c.fd none }) idx
        (get_elem? p.pollfds (length p.pollfds - 1))

remove_at : Poller → ℕ → ℤ → Result Poller
unfolding remove_known
remove_at p id (negsuc n) = assert false >> ok p
remove_at p id (pos idx) =
    assert (ltb idx (length p.pollfds)) >> remove_known p (p.chans id) idx (get_elem? p.pollfds idx)

pub remove_channel : Poller → ℕ → Result Poller
unfolding remove_at
remove_channel p id =
    let c = p.chans id in
    assert (is_some (p.channels c.fd))
    >> (assert (holds_key (p.channels c.fd) id)
        >> (assert (is_none_event c) >> remove_at p id c.index))

-- The channel of an entry with an event.
activate : Poller → ℤ → ℕ → Option ℕ → Result (Poller × List ℕ)
activate p fd revents none = assert false >> ok (p, [])
activate p fd revents (some id) =
    assert (pos (p.chans id).fd ==ℤ fd)
    >> ok (store p id (record (p.chans id) { revents = revents }), id ∷ [])

abbrev find_channel : Poller → ℤ → Option ℕ
find_channel p (pos fd) = p.channels fd
find_channel p (negsuc fd) = none

pub fill_active_channels : Poller → ℕ → List PollFd → Result (Poller × List ℕ)
unfolding activate
fill_active_channels p n [] = ok (p, [])
fill_active_channels p zero (pfd ∷ pfds) = ok (p, [])
fill_active_channels p (suc n) (pfd ∷ pfds) =
    if ltb 0 pfd.revents
    then (do
      (p', active) ← activate p pfd.fd pfd.revents (find_channel p pfd.fd)
      (p'', more) ← fill_active_channels p' n pfds
      ok (p'', active ++ more))
    else fill_active_channels p (suc n) pfds

-- `answer` is what poll(2) returns, `none` for -1, and `pollfds` the array with the events it wrote.
pub poll : Poller → Option ℕ → List PollFd → Result (Poller × List ℕ)
unfolding fill_active_channels
poll p none pollfds = ok (record p { pollfds = pollfds }, [])
poll p (some n) pollfds = fill_active_channels (record p { pollfds = pollfds }) n pollfds
