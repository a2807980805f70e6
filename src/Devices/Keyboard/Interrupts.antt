-- ===== src/Devices/Keyboard/Interrupts.antt =====
-- The interrupt handler of src/kernel/devices/PS2KeyboardDevice.cpp over sequences of bytes.
use Prim.Native.Nat.{bit_and, bit_or}
use ow_os.Common.{
  ℕ, ◌<◌, ◌+◌, ◌≡◌, ◌≢◌, ◌⊎◌, inl, inr, refl, Bool, Bool-cases, true, false, not, ◌&&◌, ◌==◌, List,
  [], ◌∷◌, ◌++◌, ◌||◌, All, arith, all_below, all_below_sound, if◌then◌else◌, Result, ok, err,
  Option, some, none, get_elem?, ltb, ltb→lt, tests, or_fault, out_of_bounds,
}
use ow_os.Libk.CircularBuffer
use ow_os.Libk.CircularBuffer.{CircularBuffer}
use ow_os.Libk.CircularBuffer.Refine.{Holds, push_latest, push-Holds}
use ow_os.Devices.KeyCode.{KeyCode, index, key_none}
use ow_os.Devices.Keyboard.{
  Keyboard, KeyEvent, parse_modifiers, shift, caps_lock, pressed, push, key_of, code_point_of,
  handle_key, handle_interrupt, handle_all,
}
use ow_os.Devices.Keyboard.Modifiers.{parse_modifiers_lt}
use ow_os.Devices.Keyboard.Tables.{default_keycode_map, default_keycode_map_shifted, key_max_index}

-- A byte whose entry in the table of prefixed keys is empty.
unfoldable pub IsUnmapped : ℕ → Type 0
IsUnmapped s = (s ≢ 0xe0) × (key_of true (bit_and s 0x7f) ≡ ok key_none)

-- Once the prefix is set, bytes without an entry in the table of prefixed keys change nothing,
-- the prefix included, however many come.
handle_all_unmapped :
    (codes : List ℕ) (k : Keyboard)
    → k.e0_prefix ≡ true
    → All IsUnmapped codes
    → handle_all codes k ≡ ok k
unfolding handle_all handle_interrupt IsUnmapped
handle_all_unmapped [] k h all = refl
handle_all_unmapped (s ∷ codes) k h all = rw ignored (handle_all_unmapped codes k h all.1)
  where
    ignored : handle_interrupt s k ≡ ok k
    ignored = ground (arith, h, all.0.0, all.0.1)

-- The tables' reads are in range.
is_listed : Bool → ℕ → Bool
is_listed e0_prefix code = elim (key_of e0_prefix code) [
  | ok key ↦ ltb (index key) key_max_index
  | err _ ↦ false
]

all_listed : (e0_prefix : Bool) → all_below 128 (is_listed e0_prefix) ≡ true
unfolding all_below is_listed key_of
all_listed true = refl
all_listed false = refl

pub key_of-ok :
    (e0_prefix : Bool) (code : ℕ)
    → code < 128
    → (key : KeyCode) × (key_of e0_prefix code ≡ ok key) × (index key < key_max_index)
unfolding is_listed
key_of-ok e0_prefix code h =
    found (key_of e0_prefix code)
      (all_below_sound 128 (is_listed e0_prefix) code (all_listed e0_prefix) h)
  where
    found :
        (r : Result KeyCode)
        → elim r [ ok key ↦ ltb (index key) key_max_index | err _ ↦ false ] ≡ true
        → (key : KeyCode) × (r ≡ ok key) × (index key < key_max_index)
    found (ok key) e = (key, refl, ltb→lt _ _ e)
    found (err f) e = absurd (ground arith)

has_code_point : Bool → ℕ → Bool
has_code_point shifted i =
    elim (get_elem? (if shifted then default_keycode_map_shifted else default_keycode_map) i) [
      | some _ ↦ true
      | none ↦ false
    ]

all_code_points : (shifted : Bool) → all_below 107 (has_code_point shifted) ≡ true
unfolding all_below has_code_point
all_code_points true = refl
all_code_points false = refl

pub code_point_of-ok :
    (shifted : Bool) (key : KeyCode)
    → index key < key_max_index
    → (c : ℕ) × (code_point_of shifted key ≡ ok c)
unfolding code_point_of has_code_point
code_point_of-ok shifted key h =
    found
      (get_elem? (if shifted then default_keycode_map_shifted else default_keycode_map) (index key))
      (all_below_sound 107 (has_code_point shifted) (index key) (all_code_points shifted) h)
  where
    found :
        (r : Option ℕ)
        → elim r [ some _ ↦ true | none ↦ false ] ≡ true
        → (c : ℕ) × (or_fault r out_of_bounds ≡ ok c)
    found (some c) e = (c, refl)
    found none e = absurd (ground arith)

-- Facts about the bits of one byte.
byte_facts : ℕ → Bool
byte_facts s =
    ltb (bit_and s 0x7f) 128 && (if ltb s 128 then bit_and s 0x80 == 0 else bit_and s 0x80 == 0x80)

all_byte_facts : all_below 256 byte_facts ≡ true
unfolding all_below byte_facts
all_byte_facts = refl

low_facts : ℕ → Bool
low_facts m = bit_and m pressed == 0 && bit_and (bit_or m pressed) pressed == pressed

all_low_facts : all_below 128 low_facts ≡ true
unfolding all_below low_facts
all_low_facts = refl

pressed_bit :
    (m s : ℕ)
    → m < 128
    → s < 256
    → bit_and (if not (bit_and s 0x80 == 0) then m else bit_or m pressed) pressed + bit_and s 0x80
      ≡ 0x80
unfolding low_facts byte_facts
pressed_bit m s h lt = grind (
  tests,
  all_below_sound 128 low_facts m all_low_facts h,
  all_below_sound 256 byte_facts s all_byte_facts lt,
)

code_lt : (s : ℕ) → s < 256 → bit_and s 0x7f < 128
unfolding byte_facts
code_lt s lt = grind (tests, all_below_sound 256 byte_facts s all_byte_facts lt)

-- What an event says of the byte that made it.
pub Describes : KeyEvent → ℕ → Type 0
Describes e s =
    (index e.key ≢ index key_none)
    × (e.scancode ≡ bit_and s 0x7f)
    × (bit_and e.modifiers pressed + bit_and s 0x80 ≡ 0x80)

handle_key-Holds :
    (k : Keyboard) (q : List KeyEvent) (s : ℕ) (key : KeyCode)
    → Holds k.buffer q
    → s < 256
    → k.modifiers < 128
    → index key < key_max_index
    → index key ≢ index key_none
    → (e : KeyEvent) × (k' : Keyboard) × (handle_key
          (not (bit_and s 0x80 == 0))
          (bit_and s 0x7f)
          key
          k
        ≡ ok k')
      × (k'.modifiers < 128)
      × Holds k'.buffer (push_latest k.buffer.capacity q e)
      × Describes e s
unfolding handle_key push Describes
handle_key-Holds k q s key h lt m listed some_key = (
  e,
  record k {
    buffer = pushed.0;
    deferred = if k.has_listeners then k.deferred ++ e ∷ [] else k.deferred;
    e0_prefix = false;
    modifiers = m_modifiers;
  },
  rw c.1 (rw pushed.1 refl),
  below,
  pushed.3,
  (some_key, refl, one_bit),
)
  where
    released : Bool
    released = not (bit_and s 0x80 == 0)

    m_modifiers : ℕ
    m_modifiers = parse_modifiers released key k.modifiers

    below : m_modifiers < 128
    below = parse_modifiers_lt released key k.modifiers m

    modifiers : ℕ
    modifiers = if released then m_modifiers else bit_or m_modifiers pressed

    c :
        (c : ℕ) × (code_point_of
            (not (bit_and modifiers shift == 0) || not (bit_and modifiers caps_lock == 0))
            key
          ≡ ok c)
    c = code_point_of-ok _ key listed

    e : KeyEvent
    e = record {
      key = key;
      scancode = bit_and s 0x7f;
      modifiers = modifiers;
      code_point = if c.0 == 92 then 21 else c.0;
    }

    pushed :
        (b : CircularBuffer KeyEvent) × (CircularBuffer.push k.buffer e ≡ ok b)
        × (b.capacity ≡ k.buffer.capacity)
        × Holds b (push_latest k.buffer.capacity q e)
    pushed = push-Holds k.buffer q e h

    one_bit : bit_and modifiers pressed + bit_and s 0x80 ≡ 0x80
    one_bit = pressed_bit m_modifiers s below lt

-- Any byte is handled without a fault, and the modifiers stay below the bit of a pressed key. The
-- buffer stays as it is, or it is given one event, with a key that is not `Key_None`, the low seven
-- bits of the byte, and the bit of a pressed key exactly if the byte's highest bit is not set.
pub handle_interrupt-Holds :
    (k : Keyboard) (q : List KeyEvent) (s : ℕ)
    → Holds k.buffer q
    → s < 256
    → k.modifiers < 128
    → (k' : Keyboard) × (handle_interrupt s k ≡ ok k')
      × (k'.modifiers < 128)
      × (Holds k'.buffer q
          ⊎ ((e : KeyEvent) × Holds k'.buffer (push_latest k.buffer.capacity q e) × Describes e s))
unfolding handle_interrupt
handle_interrupt-Holds k q s h lt m = elim (Bool-cases (s == 0xe0)) [
  | inl e ↦ rw e (record k { e0_prefix = true }, refl, m, inl h)
  | inr e ↦ rw e (
      rw found.1 (elim (Bool-cases (index found.0 == index key_none)) [
        | inl no_key ↦ rw no_key (k, refl, m, inl h)
        | inr some_key ↦ rw some_key (
            let event = handle_key-Holds k q s found.0 h lt m found.2 (ground arith) in
            (event.1, event.2, event.3, inr (event.0, event.4, event.5)))
      ]))
]
  where
    found :
        (key : KeyCode) × (key_of k.e0_prefix (bit_and s 0x7f) ≡ ok key)
        × (index key < key_max_index)
    found = key_of-ok k.e0_prefix (bit_and s 0x7f) (code_lt s lt)
