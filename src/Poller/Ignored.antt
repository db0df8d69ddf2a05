-- ===== src/Poller/Ignored.antt =====
-- A channel that was disabled is never polled again.
use chaonet.Common.{
  ℕ, pos, negsuc, ◌==ℤ◌, ◌<◌, ◌≡◌, false, ◌||◌, some, ok, assert_passes, ap, ◌∙◌, refl, eq→==,
  is_some, holds_key, ltb, lt→ltb, length, get_elem?, get_elem?-set_self, set, if_false,
}
use chaonet.Channel.{is_none_event}
use chaonet.Poller.{PollFd, Poller, changed, change_entry, update_at, update_channel}

pub record Ignored (p : Poller) (id idx : ℕ) : Type 0 where
  pub pfd : PollFd
  pub placed : (p.chans id).index ≡ pos idx
  pub inside : idx < length p.pollfds
  pub filed : p.channels (p.chans id).fd ≡ some id
  pub entry : get_elem? p.pollfds idx ≡ some pfd
  pub off : pfd.fd ≡ negsuc (p.chans id).fd

-- If the entry of a channel is one that poll passes over, updateChannel fails no assertion, and the
-- entry stays so, with the new interest, also if that is not empty.
pub update_channel-Ignored :
    (p : Poller) (id idx : ℕ)
    → Ignored p id idx
    → is_none_event (p.chans id) ≡ false
    → (p' : Poller) × (update_channel p id ≡ ok p')
      × (get_elem? p'.pollfds idx
          ≡ some
              (record { fd = negsuc (p.chans id).fd; events = (p.chans id).events; revents = 0 }))
unfolding update_channel update_at change_entry
update_channel-Ignored p id idx g active = (
  record p { pollfds = set p.pollfds idx (changed g.pfd (p.chans id)) },
  ap (update_at p id) g.placed
      ∙ assert_passes (is_some (p.channels (p.chans id).fd)) _ (ap is_some g.filed)
      ∙ assert_passes (holds_key (p.channels (p.chans id).fd) id) _
          (ap (λ o. holds_key o id) g.filed ∙ eq→== id id refl)
      ∙ assert_passes (ltb idx (length p.pollfds)) _ (lt→ltb _ _ g.inside)
      ∙ ap (change_entry p (p.chans id) idx) g.entry
      ∙ assert_passes (g.pfd.fd ==ℤ pos (p.chans id).fd || g.pfd.fd ==ℤ negsuc (p.chans id).fd) _ (
          ap (λ z. z ==ℤ pos (p.chans id).fd || z ==ℤ negsuc (p.chans id).fd) g.off
          ∙ eq→== (p.chans id).fd (p.chans id).fd refl),
  get_elem?-set_self p.pollfds idx (changed g.pfd (p.chans id)) g.inside
      ∙ ap (λ z. some (record { fd = z; events = (p.chans id).events; revents = 0 }))
          (if_false (is_none_event (p.chans id)) (negsuc (p.chans id).fd) g.pfd.fd active ∙ g.off),
)
