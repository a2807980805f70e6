-- ===== src/Devices/Keyboard/Modifiers.antt =====
-- The modifier bits that `parse_modifiers` of src/kernel/devices/PS2KeyboardDevice.cpp keeps.
use Prim.Native.Nat.{bit_and, bit_or, bit_xor}
use ow_os.Common.{
  ltb, tests, ltb→lt, ℕ, ◌-◌, ◌<◌, ◌≡◌, ◌≢◌, refl, sym, subst, Bool, true, false, ◌&&◌, ◌==◌,
  all_below, all_below_sound, ℕ_discrete, arith, if◌then◌else◌,
}
use ow_os.Devices.KeyCode.{
  KeyCode, key_caps_lock, index, key_left_shift, key_right_shift, key_left_control,
  key_right_control, key_left_alt, key_right_alt, key_super,
}
use ow_os.Devices.Keyboard.{
  modifier_bit, parse_modifiers, caps_lock, shift, control, alt, alt_gr, super,
}

-- What a press and a release do to a byte with one bit.
keeps : ℕ → ℕ → Bool
keeps bit m =
    bit_and (bit_or m bit) bit == bit
    && bit_and (bit_and m (255 - bit)) bit == 0
    && bit_and (bit_or m bit) (255 - bit) == bit_and m (255 - bit)
    && bit_and (bit_and m (255 - bit)) (255 - bit) == bit_and m (255 - bit)
    && (if ltb m 128 then ltb (bit_or m bit) 128 && ltb (bit_and m (255 - bit)) 128 else true)

abbrev is_bit : ℕ → Bool
is_bit bit = all_below 256 (keeps bit)

no_bit_keeps : is_bit 0 ≡ true
unfolding all_below keeps
no_bit_keeps = refl

shift_keeps : is_bit shift ≡ true
unfolding all_below keeps
shift_keeps = refl

control_keeps : is_bit control ≡ true
unfolding all_below keeps
control_keeps = refl

alt_keeps : is_bit alt ≡ true
unfolding all_below keeps
alt_keeps = refl

alt_gr_keeps : is_bit alt_gr ≡ true
unfolding all_below keeps
alt_gr_keeps = refl

super_keeps : is_bit super ≡ true
unfolding all_below keeps
super_keeps = refl

modifier_bit-keeps : (key : KeyCode) → is_bit (modifier_bit key) ≡ true
unfolding modifier_bit
modifier_bit-keeps key = elim key as (λ k. is_bit (modifier_bit k) ≡ true) [
  | key_left_shift ↦ shift_keeps
  | key_right_shift ↦ shift_keeps
  | key_left_control ↦ control_keeps
  | key_right_control ↦ control_keeps
  | key_left_alt ↦ alt_keeps
  | key_right_alt ↦ alt_gr_keeps
  | key_super ↦ super_keeps
  | _ ↦ no_bit_keeps
]

-- The effect of a key that is not caps lock.
after : Bool → ℕ → ℕ → ℕ
after released bit m = if released then bit_and m (255 - bit) else bit_or m bit

parse_modifiers-after :
    (released : Bool) (key : KeyCode) (m : ℕ)
    → index key ≢ index key_caps_lock
    → parse_modifiers released key m ≡ after released (modifier_bit key) m
unfolding parse_modifiers after modifier_bit
parse_modifiers-after released key m =
    elim key
      as (λ k.
        index k ≢ index key_caps_lock
        → parse_modifiers released k m ≡ after released (modifier_bit k) m) [
          | key_caps_lock ↦ λ h. absurd (h refl)
          | _ ↦ λ h. refl
        ]

after-bits :
    (bit m : ℕ)
    → keeps bit m ≡ true
    → (bit_and (after false bit m) bit ≡ bit)
      × (bit_and (after true bit m) bit ≡ 0)
      × ((released : Bool) → bit_and (after released bit m) (255 - bit) ≡ bit_and m (255 - bit))
unfolding keeps after
after-bits bit m h = (
  ground arith,
  ground arith,
  λ released. elim released as (λ r. bit_and (after r bit m) (255 - bit) ≡ bit_and m (255 - bit)) [
    | true ↦ ground arith
    | false ↦ ground arith
  ],
)

-- A press sets the bit of the key, a release clears it, and neither changes another bit.
parse_modifiers-bits :
    (key : KeyCode) (m : ℕ)
    → m < 256
    → index key ≢ index key_caps_lock
    → (bit_and (parse_modifiers false key m) (modifier_bit key) ≡ modifier_bit key)
      × (bit_and (parse_modifiers true key m) (modifier_bit key) ≡ 0)
      × ((released : Bool)
          → bit_and (parse_modifiers released key m) (255 - modifier_bit key)
            ≡ bit_and m (255 - modifier_bit key))
parse_modifiers-bits key m h n =
    rw (parse_modifiers-after false key m n) rw (parse_modifiers-after true key m n)
      (first.0, first.1, λ released. rw (parse_modifiers-after released key m n) (first.2 released))
  where
    first :
        (bit_and (after false (modifier_bit key) m) (modifier_bit key) ≡ modifier_bit key)
        × (bit_and (after true (modifier_bit key) m) (modifier_bit key) ≡ 0)
        × ((released : Bool)
            → bit_and (after released (modifier_bit key) m) (255 - modifier_bit key)
              ≡ bit_and m (255 - modifier_bit key))
    first =
        after-bits (modifier_bit key) m
          (all_below_sound 256 (keeps (modifier_bit key)) m (modifier_bit-keeps key) h)

stays_low : ℕ → Bool
stays_low m = ltb (bit_xor m caps_lock) 128

all_stay_low : all_below 128 stays_low ≡ true
unfolding all_below stays_low
all_stay_low = refl

after_lt : (released : Bool) (bit m : ℕ) → m < 128 → keeps bit m ≡ true → after released bit m < 128
unfolding keeps after
after_lt released bit m h e = elim released as (λ r. after r bit m < 128) [
  | true ↦ grind tests
  | false ↦ grind tests
]

caps_lock_lt : (released : Bool) (m : ℕ) → m < 128 → parse_modifiers released key_caps_lock m < 128
unfolding parse_modifiers stays_low
caps_lock_lt true m h = ltb→lt _ _ (all_below_sound 128 stays_low m all_stay_low h)
caps_lock_lt false m h = h

only_caps_lock : (key : KeyCode) → index key ≡ index key_caps_lock → key ≡ key_caps_lock
only_caps_lock key = elim key as (λ k. index k ≡ index key_caps_lock → k ≡ key_caps_lock) [
  | key_caps_lock ↦ λ e. refl
  | _ ↦ λ e. absurd (omega arith)
]

-- The byte of modifiers never holds the bit of a pressed key.
pub parse_modifiers_lt :
    (released : Bool) (key : KeyCode) (m : ℕ) → m < 128 → parse_modifiers released key m < 128
parse_modifiers_lt released key m h = elim (ℕ_discrete (index key) (index key_caps_lock)) [
  | yes e ↦
      subst (λ k. parse_modifiers released k m < 128) (sym (only_caps_lock key e))
        (caps_lock_lt released m h)
  | no n ↦ rw (parse_modifiers-after released key m n) (
      after_lt released (modifier_bit key) m h
        (all_below_sound 256 (keeps (modifier_bit key)) m (modifier_bit-keeps key) (omega arith)))
]
