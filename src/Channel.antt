-- ===== src/Channel.antt =====
-- chaonet/include/Channel.h and chaonet/src/Channel.cpp: a descriptor's interest in events, and the
-- dispatch of the events that came. The update() that follows each change of the interest is the
-- poller's (EPoller).
pub mod Events
use Prim.Native.Nat.{bit_and, bit_or}
use chaonet.Common.{
  ℕ, ◌+◌, ◌-◌, ℤ, pos, negsuc, Bool, not, ◌&&◌, ◌||◌, List, [], ◌∷◌, ◌++◌, ◌==◌, if◌then◌else◌,
}

-- Flags of <poll.h>.
abbrev pub pollin : ℕ
pollin = 0x1

abbrev pub pollpri : ℕ
pollpri = 0x2

abbrev pub pollout : ℕ
pollout = 0x4

abbrev pub pollerr : ℕ
pollerr = 0x8

abbrev pub pollhup : ℕ
pollhup = 0x10

abbrev pub pollnval : ℕ
pollnval = 0x20

abbrev pub pollrdhup : ℕ
pollrdhup = 0x2000

abbrev pub none_event : ℕ
none_event = 0

abbrev pub read_event : ℕ
read_event = 3

abbrev pub write_event : ℕ
write_event = 4

-- The four callbacks of a channel.
pub data Callback : Type 0 where
  on_close on_error on_read on_write : Callback

-- `index` belongs to the poller. The flags say which callbacks are set.
pub record Channel : Type 0 where
  pub fd : ℕ
  pub events : ℕ
  pub revents : ℕ
  pub index : ℤ
  pub has_read : Bool
  pub has_write : Bool
  pub has_error : Bool
  pub has_close : Bool

abbrev pub new_channel : ℕ → Channel
new_channel fd = record {
  fd = fd;
  events = 0;
  revents = 0;
  index = negsuc 0;
  has_read = Bool.false;
  has_write = Bool.false;
  has_error = Bool.false;
  has_close = Bool.false;
}

-- `flags & mask` read as a condition.
abbrev pub any_of : ℕ → ℕ → Bool
any_of flags mask = not (bit_and flags mask == 0)

-- `events & ~mask` on a 32-bit int.
abbrev without : ℕ → ℕ → ℕ
without events mask = bit_and events (4294967295 - mask)

unfoldable pub enable_reading : Channel → Channel
enable_reading c = record c { events = bit_or c.events read_event }

pub disable_reading : Channel → Channel
disable_reading c = record c { events = without c.events read_event }

unfoldable pub enable_writing : Channel → Channel
enable_writing c = record c { events = bit_or c.events write_event }

pub disable_writing : Channel → Channel
disable_writing c = record c { events = without c.events write_event }

unfoldable pub disable_all : Channel → Channel
disable_all c = record c { events = none_event }

unfoldable pub is_writing : Channel → Bool
is_writing c = any_of c.events write_event

pub is_reading : Channel → Bool
is_reading c = any_of c.events read_event

abbrev pub is_none_event : Channel → Bool
is_none_event c = c.events == none_event

call_if : Bool → Bool → Callback → List Callback
call_if event is_set callback = if event && is_set then callback ∷ [] else []

-- The callbacks that handleEvent makes, in order.
pub handle_event : Channel → List Callback
unfolding call_if
handle_event c =
    call_if (any_of c.revents pollhup && not (any_of c.revents pollin)) c.has_close on_close
    ++ (call_if (any_of c.revents (pollerr + pollnval)) c.has_error on_error
        ++ (call_if (any_of c.revents (pollin + pollpri + pollrdhup)) c.has_read on_read
            ++ call_if (any_of c.revents pollout) c.has_write on_write))
