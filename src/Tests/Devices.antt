-- ===== src/Tests/Devices.antt =====
-- Runs of the circular buffer of src/kernel/include/libk/CircularBuffer.hpp and of the keyboard of
-- src/kernel/devices/PS2KeyboardDevice.cpp and KeyboardDevice.cpp.
use ow_os.Common.{
  ℕ, ◌*◌, ◌/◌, ◌<◌, ◌≡◌, ◌⊎◌, min, refl, true, List, [], ◌∷◌, replicate, take, drop, ok, arith,
}
use ow_os.Libk.CircularBuffer.{CircularBuffer}
use ow_os.Libk.CircularBuffer.Contents.{advance_by}
use ow_os.Libk.CircularBuffer.Refine.{Holds, push_latest}
use ow_os.Devices.KeyCode.{key_a}
use ow_os.Devices.Keyboard.{KeyEvent, Keyboard, handle_interrupt, event_size, read}
use ow_os.Devices.Keyboard.Interrupts.{Describes, handle_interrupt-Holds}
use ow_os.Devices.Keyboard.Read.{last_over, read_lem}

-- A buffer of two places, full, that begins at the second.
abbrev full : CircularBuffer ℕ
full = record { storage = 8 ∷ 7 ∷ []; head = 1; tail = 1; capacity = 2; size = 2 }

full-Holds : Holds full (7 ∷ 8 ∷ [])
unfolding advance_by
full-Holds = record {
  storage_length = refl;
  tail_in = omega arith;
  size_le = omega arith;
  size_eq = refl;
  head_eq = refl;
  values = (refl, (refl, tt));
}

abbrev event : KeyEvent
event = record { key = key_a; scancode = 0x1e; modifiers = 0x80; code_point = 97 }

abbrev release : KeyEvent
release = record { key = key_a; scancode = 0x1e; modifiers = 0; code_point = 97 }

abbrev events : CircularBuffer KeyEvent
events = record { storage = event ∷ release ∷ []; head = 0; tail = 0; capacity = 2; size = 2 }

events-Holds : Holds events (event ∷ release ∷ [])
unfolding advance_by
events-Holds = record {
  storage_length = refl;
  tail_in = omega arith;
  size_le = omega arith;
  size_eq = refl;
  head_eq = refl;
  values = (refl, (refl, tt));
}

abbrev keyboard : Keyboard
keyboard = record {
  buffer = events;
  has_listeners = true;
  deferred = [];
  e0_prefix = true;
  modifiers = 0;
}

handle_interrupt-Holds_example :
    (k' : Keyboard) × (handle_interrupt 0x48 keyboard ≡ ok k')
    × (k'.modifiers < 128)
    × (Holds k'.buffer (event ∷ release ∷ [])
        ⊎ ((e : KeyEvent) × Holds k'.buffer (push_latest 2 (event ∷ release ∷ []) e)
            × Describes e 0x48))
handle_interrupt-Holds_example =
    handle_interrupt-Holds keyboard (event ∷ release ∷ []) 0x48 events-Holds (omega arith)
      (omega arith)

-- The scancode and the code point of an event among zeros.
abbrev image : KeyEvent → List ℕ
image e = e.scancode ∷ e.code_point ∷ replicate 10 0

read_lem_example :
    (events' : CircularBuffer KeyEvent) × (read image 24 (replicate 24 0) events
      ≡ ok (
        min (24 / event_size) 2 * event_size,
        last_over image
            (λ e. refl)
            (replicate 24 0)
            (take (24 / event_size) (event ∷ release ∷ [])),
        events',
      ))
    × Holds events' (drop (24 / event_size) (event ∷ release ∷ []))
read_lem_example =
    read_lem image (λ e. refl) 24 (replicate 24 0) events (event ∷ release ∷ []) events-Holds
