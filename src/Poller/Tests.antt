-- ===== src/Poller/Tests.antt =====
-- A channel was disabled, and is enabled again.
use chaonet.Common.{pos, negsuc, none, some, [], ◌∷◌, refl, arith, ◌==◌, if◌then◌else◌}
use chaonet.Channel.{Channel, new_channel}
use chaonet.Poller.{Poller}
use chaonet.Poller.Ignored.{Ignored}

abbrev channel : Channel
channel = record (new_channel 5) { events = 3; index = pos 0 }

abbrev poller : Poller
poller = record {
  pollfds = record { fd = negsuc 5; events = 0; revents = 0 } ∷ [];
  channels = λ fd. if fd == 5 then some 100 else none;
  chans = λ id. channel;
}

poller-Ignored : Ignored poller 100 0
poller-Ignored = record {
  pfd = record { fd = negsuc 5; events = 0; revents = 0 };
  placed = refl;
  inside = omega arith;
  filed = refl;
  entry = refl;
  off = refl;
}
