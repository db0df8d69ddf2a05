-- ===== src/Channel/Events.antt =====
-- The interest of a channel is always one of four masks, and the operations act on its two parts.
use chaonet.Common.{ℕ, ◌+◌, ◌≡◌, refl, Bool, true, false, ◌||◌, not, if◌then◌else◌}
use chaonet.Channel.{
  Channel, enable_reading, disable_reading, enable_writing, disable_writing, disable_all,
  is_writing, is_reading, is_none_event,
}

-- The mask of a channel that reads, writes, both or neither.
abbrev pub mask : Bool → Bool → ℕ
mask r w = (if r then 3 else 0) + (if w then 4 else 0)

-- The interest of the channel is in reading if `r` and in writing if `w`.
abbrev pub Watches : Channel → Bool → Bool → Type 0
Watches c r w = c.events ≡ mask r w

module _ (c : Channel) where
  pub enable_reading-Watches : (r w : Bool) → Watches c r w → Watches (enable_reading c) true w
  unfolding enable_reading
  enable_reading-Watches true true e = rw e
  enable_reading-Watches true false e = rw e
  enable_reading-Watches false true e = rw e
  enable_reading-Watches false false e = rw e

  pub disable_reading-Watches : (r w : Bool) → Watches c r w → Watches (disable_reading c) false w
  unfolding disable_reading
  disable_reading-Watches true true e = rw e
  disable_reading-Watches true false e = rw e
  disable_reading-Watches false true e = rw e
  disable_reading-Watches false false e = rw e

  pub enable_writing-Watches : (r w : Bool) → Watches c r w → Watches (enable_writing c) r true
  unfolding enable_writing
  enable_writing-Watches true true e = rw e
  enable_writing-Watches true false e = rw e
  enable_writing-Watches false true e = rw e
  enable_writing-Watches false false e = rw e

  pub disable_writing-Watches : (r w : Bool) → Watches c r w → Watches (disable_writing c) r false
  unfolding disable_writing
  disable_writing-Watches true true e = rw e
  disable_writing-Watches true false e = rw e
  disable_writing-Watches false true e = rw e
  disable_writing-Watches false false e = rw e

  pub disable_all-Watches : Watches (disable_all c) false false
  unfolding disable_all
  disable_all-Watches = refl

  pub is_writing-Watches : (r w : Bool) → Watches c r w → is_writing c ≡ w
  unfolding is_writing
  is_writing-Watches true true e = rw e
  is_writing-Watches true false e = rw e
  is_writing-Watches false true e = rw e
  is_writing-Watches false false e = rw e

  pub is_reading-Watches : (r w : Bool) → Watches c r w → is_reading c ≡ r
  unfolding is_reading
  is_reading-Watches true true e = rw e
  is_reading-Watches true false e = rw e
  is_reading-Watches false true e = rw e
  is_reading-Watches false false e = rw e

  pub is_none_event-Watches : (r w : Bool) → Watches c r w → is_none_event c ≡ not (r || w)
  is_none_event-Watches true true e = rw e
  is_none_event-Watches true false e = rw e
  is_none_event-Watches false true e = rw e
  is_none_event-Watches false false e = rw e
