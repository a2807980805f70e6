-- ===== src/Devices/Keyboard.antt =====
-- src/kernel/devices/PS2KeyboardDevice.cpp and KeyboardDevice.cpp: the interrupt handler of the PS/2
-- keyboard and the queue of key events that its readers take from. The locks are left out.
pub mod Tables
pub mod Modifiers
pub mod Interrupts
pub mod Read
use Prim.Native.Nat.{bit_and, bit_or, bit_xor}
use ow_os.Common.{
  ℕ, zero, suc, ◌+◌, ◌-◌, Bool, true, false, not, ◌||◌, List, ◌∷◌, [], ◌++◌, ltb, ◌==◌,
  if◌then◌else◌, drop, get_elem?, Result, ok, err, out_of_bounds, out_of_fuel, or_fault, ◌>>=◌,
}
use ow_os.Libk.CircularBuffer
use ow_os.Libk.CircularBuffer.{CircularBuffer, is_empty}
use ow_os.Devices.KeyCode.{
  KeyCode, index, key_none, key_left_shift, key_right_shift, key_left_control, key_right_control,
  key_left_alt, key_right_alt, key_super, key_caps_lock,
}
use ow_os.Devices.Keyboard.Tables.{
  default_keycode_map, default_keycode_map_shifted, default_scancode_map, default_e0_scancode_map,
}

-- `KeyModifiers`.
abbrev pub shift : ℕ
shift = 0x01

abbrev pub control : ℕ
control = 0x02

abbrev pub alt : ℕ
alt = 0x04

abbrev pub alt_gr : ℕ
alt_gr = 0x08

abbrev pub super : ℕ
super = 0x10

abbrev pub caps_lock : ℕ
caps_lock = 0x20

abbrev pub pressed : ℕ
pressed = 0x80

-- `key_event_t`.
pub record KeyEvent : Type 0 where
  pub key : KeyCode
  pub scancode : ℕ
  pub modifiers : ℕ
  pub code_point : ℕ

-- The device: `has_listeners` is `!m_listeners.empty()`, and `deferred` is what the processor's
-- deferred calls will hand to the listeners.
pub record Keyboard : Type 0 where
  pub buffer : CircularBuffer KeyEvent
  pub has_listeners : Bool
  pub deferred : List KeyEvent
  pub e0_prefix : Bool
  pub modifiers : ℕ

-- The bit that the switch of `parse_modifiers` picks.
unfoldable pub modifier_bit : KeyCode → ℕ
modifier_bit key_left_shift = shift
modifier_bit key_right_shift = shift
modifier_bit key_left_control = control
modifier_bit key_right_control = control
modifier_bit key_left_alt = alt
modifier_bit key_right_alt = alt_gr
modifier_bit key_super = super
modifier_bit _ = 0

-- `m_modifiers` after the call, from its value before; `~bit` is 255 - bit in a byte.
unfoldable pub parse_modifiers : Bool → KeyCode → ℕ → ℕ
parse_modifiers released key_caps_lock m = if released then bit_xor m caps_lock else m
parse_modifiers released key m =
    if released then bit_and m (255 - modifier_bit key) else bit_or m (modifier_bit key)

unfoldable pub push : KeyEvent → Keyboard → Result Keyboard
push event k = do
  buffer ← CircularBuffer.push k.buffer event
  ok (record k {
    buffer = buffer;
    deferred = if k.has_listeners then k.deferred ++ event ∷ [] else k.deferred;
  })

-- The tables' reads.
unfoldable pub key_of : Bool → ℕ → Result KeyCode
key_of e0_prefix scancode =
    or_fault
      (get_elem? (if e0_prefix then default_e0_scancode_map else default_scancode_map) scancode)
      out_of_bounds

unfoldable pub code_point_of : Bool → KeyCode → Result ℕ
code_point_of shifted key =
    or_fault
      (get_elem? (if shifted then default_keycode_map_shifted else default_keycode_map) (index key))
      out_of_bounds

-- What the handler does with a key that is not `Key_None`.
unfoldable pub handle_key : Bool → ℕ → KeyCode → Keyboard → Result Keyboard
handle_key released scancode key k =
    let m_modifiers = parse_modifiers released key k.modifiers in
    let modifiers = if released then m_modifiers else bit_or m_modifiers pressed in
    let shifted = not (bit_and modifiers shift == 0) || not (bit_and modifiers caps_lock == 0) in
    do
      code_point ← code_point_of shifted key
      push
          (record {
            key = key;
            scancode = scancode;
            modifiers = modifiers;
            code_point = if code_point == 92 then 21 else code_point;
          })
          (record k { e0_prefix = false; modifiers = m_modifiers })

-- `scancode` is the byte that the input port gave.
unfoldable pub handle_interrupt : ℕ → Keyboard → Result Keyboard
handle_interrupt scancode k =
    if scancode == 0xe0
    then ok (record k { e0_prefix = true })
    else (let released = not (bit_and scancode 0x80 == 0) in
        let code = bit_and scancode 0x7f in
        do
          key ← key_of k.e0_prefix code
          if index key == index key_none then ok k else handle_key released code key k)

-- One interrupt for each byte.
unfoldable pub handle_all : List ℕ → Keyboard → Result Keyboard
handle_all [] k = ok k
handle_all (s ∷ codes) k = do k ← handle_interrupt s k; handle_all codes k

-- `sizeof(key_event_t)`.
abbrev pub event_size : ℕ
event_size = 12

-- `image` gives the bytes of an event in memory, as the compiler lays them out.
module _ (image : KeyEvent → List ℕ) where
  -- `memcpy` of an event to the start of a buffer.
  unfoldable pub copy_event : KeyEvent → List ℕ → List ℕ
  copy_event event buffer = image event ++ drop event_size buffer

  -- The loop of `read`: the count of bytes it gives, the caller's buffer and the events left.
  unfoldable pub read_from :
      ℕ → ℕ → ℕ → List ℕ → CircularBuffer KeyEvent → Result (ℕ × List ℕ × CircularBuffer KeyEvent)
  read_from zero read bytes buffer events = err out_of_fuel
  read_from (suc fuel) read bytes buffer events =
      if not (ltb read bytes) || is_empty events || ltb (bytes - read) event_size
      then ok (read, buffer, events)
      else do
        (event, events) ← CircularBuffer.pop events
        read_from fuel (read + event_size) bytes (copy_event event buffer) events

  unfoldable pub read :
      ℕ → List ℕ → CircularBuffer KeyEvent → Result (ℕ × List ℕ × CircularBuffer KeyEvent)
  read bytes buffer events = read_from (suc bytes) 0 bytes buffer events
