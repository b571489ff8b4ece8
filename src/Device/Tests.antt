-- ===== src/Device/Tests.antt =====
-- A metronome and a socket: their theorems at concrete states.
use thespian.Prelude.{◌+◌, ◌*◌, ◌≡◌, refl, true, false, List, [], ◌∷◌, ◌++◌, take, some, none}
use thespian.Prelude.Int.{pos}
use thespian.Device.Unx.{UnxAcceptor, Event, accepts, closes, shuts, drops, live}
use thespian.Device.UnxFiles.{removed, owned, live-removed}
use thespian.Prelude.Text.{codes}
use thespian.Device.Metronome.{Metronome, ticks, counted, ticks_lem}
use thespian.Device.Socket.{Socket, Call, write_call, close_call, write_complete}
use thespian.Device.Pending.{pending, written, IsSteady, write_complete_lem}

abbrev started : Metronome
started = record { us = 250; running = true; last_tick = 1000; counter = 2; deadline = some 1250 }

ticks_lem_example :
    ((ticks 3 started).0 ≡ counted 3 2)
    × ((ticks 3 started).1.deadline ≡ some (1000 + 4 * 250))
    × ((ticks 3 started).1.running ≡ true)
ticks_lem_example = ticks_lem 3 started refl refl

abbrev busy : Socket
busy = record {
  tag = codes "tcp";
  is_open = true;
  write_buf = 1 ∷ 2 ∷ 3 ∷ [];
  write_q = 4 ∷ [];
  write_pending = true;
  submitted = 1 ∷ 2 ∷ 3 ∷ [];
  closes = false;
}

abbrev calls : List Call
calls = write_call (5 ∷ 6 ∷ []) ∷ close_call ∷ []

busy-IsSteady : IsSteady busy
busy-IsSteady = record { idle = refl; none_queued = refl }

write_complete_lem_example :
    (take 2 busy.write_buf ++ pending (write_complete 2 calls true busy)
      ≡ pending busy ++ written calls)
    × IsSteady (write_complete 2 calls true busy)
write_complete_lem_example = write_complete_lem 2 calls true busy refl

abbrev listening : UnxAcceptor
listening = record { tag = codes "unx"; path = codes "/tmp/s"; is_open = true }

abbrev events : List Event
events = accepts (pos 5) none shuts false ∷ accepts (pos 6) none drops true ∷ closes ∷ []

live-removed_example : removed (live events listening) ≡ owned (codes "/tmp/s")
live-removed_example = live-removed events listening
