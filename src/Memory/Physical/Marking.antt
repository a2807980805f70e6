-- ===== src/Memory/Physical/Marking.antt =====
-- What the marking of a span of pages in src/kernel/memory/PhysicalMemoryManager.cpp does to the bits.
use ow_os.Common.{
  ℕ, zero, suc, ◌+◌, ◌-◌, ◌*◌, ◌/◌, ◌%◌, ◌≤◌, ◌<◌, ◌≡◌, refl, sym, ◌∙◌, Bool, Bool-cases, inl, inr,
  true, false, ◌&&◌, List, [], ◌∷◌, ltb, leb, ◌==◌, if◌then◌else◌, ltb→lt, lt→ltb, ltb→le, arith,
  ok,
}
use ow_os.Memory.Physical.{Bitmap, Buddy, mark_span, mark_used}

abbrev pub in_span : ℕ → ℕ → ℕ → Bool
in_span begin end j = leb begin j && leb j end

-- The bits of a span have the value, and the others are as before.
abbrev pub IsMarked : Bool → ℕ → ℕ → Bitmap → Bitmap → Type 0
IsMarked value begin end b b' =
    (b'.dwords ≡ b.dwords) × ((j : ℕ) → b'.bit j ≡ (if in_span begin end j then value else b.bit j))

one_more :
    (value old : Bool) (i end j : ℕ)
    → i ≤ end
    → (if in_span (i + 1) end j then value else if j == i then value else old)
      ≡ (if in_span i end j then value else old)
one_more value old i end j h = ground arith

word_more :
    (value old : Bool) (i end j : ℕ)
    → i % 32 ≡ 0
    → 32 ≤ end - i
    → (if in_span (i + 32) end j then value else if j / 32 == i / 32 then value else old)
      ≡ (if in_span i end j then value else old)
word_more value old i end j h k = ground arith

none_more :
    (value old : Bool) (i end j : ℕ) → end < i → old ≡ (if in_span i end j then value else old)
none_more value old i end j h = ground arith

pub whole : (i end : ℕ) → (i % 32 == 0 && leb 32 (end - i)) ≡ true → (i % 32 ≡ 0) × (32 ≤ end - i)
whole i end h = ground arith

pub at_word : (i end dwords : ℕ) → i ≤ end → end / 32 < dwords → ltb (i / 32) dwords ≡ true
at_word i end dwords h fits = lt→ltb (i / 32) dwords (omega arith)

pub mark_span-IsMarked :
    (value : Bool) (rounds i end : ℕ) (b : Bitmap)
    → suc end - i ≤ rounds
    → end / 32 < b.dwords
    → (b' : Bitmap) × (mark_span value rounds i end b ≡ ok b') × IsMarked value i end b b'
unfolding mark_span
mark_span-IsMarked value zero i end b h fits =
    let past : ltb end i ≡ true = lt→ltb end i (omega arith) in
    (b, rw past refl, (refl, (λ j. none_more value (b.bit j) i end j (omega arith))))
mark_span-IsMarked value (suc rounds) i end b h fits = elim (Bool-cases (ltb end i)) [
  | inl e ↦ (b, rw e refl, (refl, (λ j. none_more value (b.bit j) i end j (ltb→lt end i e))))
  | inr e ↦ elim (Bool-cases (i % 32 == 0 && leb 32 (end - i))) [
    | inl w ↦
        let at : ltb (i / 32) b.dwords ≡ true = at_word i end b.dwords (ltb→le end i e) fits in
        let marked : Bitmap = record b { bit = λ j. if j / 32 == i / 32 then value else b.bit j } in
        let (b', eq, (words, bits)) =
          mark_span-IsMarked value rounds (i + 32) end marked (omega arith) fits in
        (
          b',
          rw (e, w, at) eq,
          (
            words,
            (λ j. bits j ∙ word_more value (b.bit j) i end j (whole i end w).0 (whole i end w).1),
          ),
        )
    | inr w ↦
        let at : ltb (i / 32) b.dwords ≡ true = at_word i end b.dwords (ltb→le end i e) fits in
        let marked : Bitmap = record b { bit = λ j. if j == i then value else b.bit j } in
        let (b', eq, (words, bits)) =
          mark_span-IsMarked value rounds (i + 1) end marked (omega arith) fits in
        (
          b',
          rw (e, w, at) eq,
          (words, (λ j. bits j ∙ one_more value (b.bit j) i end j (ltb→le end i e))),
        )
  ]
]

-- A page stays in the bitmaps, at every level.
unfoldable pub Fits : List Buddy → ℕ → Type 0
Fits [] page = Unit {0}
Fits (buddy ∷ buddies) page = (page / 32 < buddy.bitmap.dwords) × Fits buddies (page / 2)

-- At every level the blocks of the span are marked, and nothing else changes.
unfoldable pub Spans : ℕ → ℕ → List Buddy → List Buddy → Type 0
Spans begin end [] [] = Unit {0}
Spans begin end [] (new ∷ news) = ⊥
Spans begin end (old ∷ olds) [] = ⊥
Spans begin end (old ∷ olds) (new ∷ news) =
    ((new ≡ record old { bitmap = new.bitmap }) × IsMarked true begin end old.bitmap new.bitmap)
    × Spans (begin / 2) (end / 2) olds news

pub mark_used-Spans :
    (begin end : ℕ) (buddies : List Buddy)
    → Fits buddies end
    → (news : List Buddy) × (mark_used begin end buddies ≡ ok news) × Spans begin end buddies news
unfolding mark_used Fits Spans
mark_used-Spans begin end [] fits = ([], refl, tt)
mark_used-Spans begin end (buddy ∷ buddies) fits =
    let (b, eq, marked) =
      mark_span-IsMarked true (suc end - begin) begin end buddy.bitmap (omega arith) fits.0 in
    let (news, eq', rest) = mark_used-Spans (begin / 2) (end / 2) buddies fits.1 in
    (record buddy { bitmap = b } ∷ news, rw (eq, eq') refl, ((refl, marked), rest))

-- Both halves of a block that is free are free.
abbrev pub IsPaired : Bitmap → Bitmap → Type 0
IsPaired lower upper =
    (j : ℕ) → upper.bit j ≡ false → (lower.bit (2 * j) ≡ false) × (lower.bit (2 * j + 1) ≡ false)

unfoldable pub Nested : List Buddy → Type 0
Nested [] = Unit {0}
Nested (buddy ∷ []) = Unit {0}
Nested (buddy ∷ next ∷ buddies) = IsPaired buddy.bitmap next.bitmap × Nested (next ∷ buddies)

outside :
    (begin end j : ℕ) (old : Bool)
    → (if in_span begin end j then true else old) ≡ false
    → (old ≡ false) × (in_span begin end j ≡ false)
outside begin end j old h = ground arith

halves :
    (begin end j : ℕ)
    → in_span (begin / 2) (end / 2) j ≡ false
    → (in_span begin end (2 * j) ≡ false) × (in_span begin end (2 * j + 1) ≡ false)
halves begin end j h = (ground arith, ground arith)

IsMarked-IsPaired :
    (begin end : ℕ) (lower upper lower' upper' : Bitmap)
    → IsPaired lower upper
    → IsMarked true begin end lower lower'
    → IsMarked true (begin / 2) (end / 2) upper upper'
    → IsPaired lower' upper'
IsMarked-IsPaired begin end lower upper lower' upper' paired low up j e =
    let (was, out) = outside (begin / 2) (end / 2) j (upper.bit j) (sym (up.1 j) ∙ e) in
    let (one, two) = paired j was in
    let (out₁, out₂) = halves begin end j out in
    (low.1 (2 * j) ∙ rw out₁ one, low.1 (2 * j + 1) ∙ rw out₂ two)

pub Spans-Nested :
    (begin end : ℕ) (olds news : List Buddy) → Spans begin end olds news → Nested olds → Nested news
unfolding Spans Nested
Spans-Nested begin end [] [] s n = tt
Spans-Nested begin end [] (new ∷ news) s n = absurd s
Spans-Nested begin end (old ∷ olds) [] s n = absurd s
Spans-Nested begin end (old ∷ []) (new ∷ []) s n = tt
Spans-Nested begin end (old ∷ []) (new ∷ new₂ ∷ news) s n = absurd s.1
Spans-Nested begin end (old ∷ old₂ ∷ olds) (new ∷ []) s n = absurd s.1
Spans-Nested begin end (old ∷ old₂ ∷ olds) (new ∷ new₂ ∷ news) s n = (
  IsMarked-IsPaired begin end old.bitmap old₂.bitmap new.bitmap new₂.bitmap n.0 s.0.1 s.1.0.1,
  Spans-Nested (begin / 2) (end / 2) (old₂ ∷ olds) (new₂ ∷ news) s.1 n.1,
)
