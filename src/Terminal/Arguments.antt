-- ===== src/Terminal/Arguments.antt =====
-- The arguments of a control sequence: `parse_csi_arguments` of src/kernel/tty/Terminal.cpp and
-- `strtol` of src/kernel/libk/kcstdlib.cpp at base 10. The end of a list is a string's terminator.
pub mod Numbers
use ow_os.Common.{
  ℕ, zero, suc, ◌+◌, ◌-◌, Bool, true, false, ◌&&◌, ◌||◌, List, [], ◌∷◌, leb, ◌==◌, if◌then◌else◌,
  add32, mul32, length, drop, Result, ok, err, out_of_fuel, ◌>>=◌,
}

abbrev pub is_digit : ℕ → Bool
is_digit c = leb 48 c && leb c 57

-- `strtol`: the number, as a word, and the string behind it.
unfoldable pub strtol : ℕ → List ℕ → ℕ × List ℕ
strtol num [] = (num, [])
strtol num (c ∷ s) =
    let rest = strtol (add32 (mul32 num 10) (c - 48)) s in if is_digit c then rest else (num, c ∷ s)

-- `if (*string == ';') string++;`
abbrev pub skip_separator : List ℕ → List ℕ
skip_separator [] = []
skip_separator (c ∷ s) = if c == 59 then s else c ∷ s

abbrev pub has_argument : List ℕ → Bool
has_argument [] = false
has_argument (c ∷ s) = is_digit c || c == 59

-- The loop, a round for each unit of fuel.
unfoldable pub read_arguments : ℕ → List ℕ → Result (List ℕ)
read_arguments zero s = err out_of_fuel
read_arguments (suc fuel) s =
    let (arg, s') = strtol 0 s in
    let rest = read_arguments fuel (skip_separator s') in
    if has_argument s then (do args ← rest; ok (arg ∷ args)) else ok []

abbrev pub skip_private : List ℕ → List ℕ
skip_private [] = []
skip_private (c ∷ s) = if c == 63 then s else c ∷ s

-- Every round takes a character at least.
unfoldable pub parse_csi_arguments : List ℕ → Result (List ℕ)
parse_csi_arguments sequence =
    let s = skip_private (drop 2 sequence) in read_arguments (suc (length s)) s
