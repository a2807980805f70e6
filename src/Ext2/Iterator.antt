-- ===== src/Ext2/Iterator.antt =====
-- `Ext2BlockIterator` of src/kernel/filesystem/Ext2FileSystem.cpp, against the pointers of an inode as a tree.
use ow_os.Common.{
  ℕ, zero, suc, ◌+◌, ◌-◌, ◌*◌, ◌/◌, ◌%◌, ◌^◌, ◌<◌, ◌≡◌, inl, inr, refl, ap, ◌∙◌, Bool-cases, false,
  ltb, leb, ◌==◌, if◌then◌else◌, lt→ltb, arith, Option, none, some, ok,
}
use ow_os.Ext2.{
  Disk, Inode, BlockPointer, BlockIterator, inodes_per_block, word_of, put, follow, update_triple,
  update_double, update_single, invalidated, update_blocks,
}
use ow_os.Ext2.Pointers.{IsInside}

-- The block that is so many levels below another, by its index.
unfoldable pub pointed : Disk → ℕ → ℕ → ℕ → ℕ
pointed disk zero block i = block
pointed disk (suc levels) block i =
    pointed disk levels (word_of disk block (i / 1024 ^ levels)) (i % 1024 ^ levels)

-- The block of the device that holds a block of a file.
unfoldable pub block_of : Disk → Inode → ℕ → ℕ
block_of disk inode index =
    if ltb index 12
    then inode.direct_ptr index
    else if ltb (index - 12) 1024
    then pointed disk 1 inode.singly_indirect_ptr (index - 12)
    else if ltb (index - (12 + 1024)) (1024 * 1024)
    then pointed disk 2 inode.doubly_indirect_ptr (index - (12 + 1024))
    else pointed disk 3 inode.triply_indirect_ptr (index - (12 + 1024 + 1024 * 1024))

-- What `follow` comes to.
abbrev pub followed : Disk → Option ℕ → ℕ → ℕ → Option ℕ
followed disk (some block) at pointer = some (word_of disk block at)
followed disk none at pointer = if at == 0 then none else some pointer

-- The iterator with the blocks of a pointer.
abbrev pub triple_of : Disk → BlockPointer → BlockIterator → Option ℕ
triple_of disk p it =
    followed disk none p.triply_indirect_block it.inode_metadata.triply_indirect_ptr

abbrev pub double_of : Disk → BlockPointer → BlockIterator → Option ℕ
double_of disk p it =
    followed disk (triple_of disk p it) p.doubly_indirect_block
      it.inode_metadata.doubly_indirect_ptr

abbrev pub single_of : Disk → BlockPointer → BlockIterator → Option ℕ
single_of disk p it =
    followed disk (double_of disk p it) p.singly_indirect_block
      it.inode_metadata.singly_indirect_ptr

unfoldable pub loaded : Disk → BlockPointer → BlockIterator → BlockIterator
loaded disk p it = record it {
  triple_block = triple_of disk p it;
  double_block = double_of disk p it;
  single_block = single_of disk p it;
}

follow-followed :
    (disk : Disk) (above : Option ℕ) (at pointer : ℕ)
    → at < inodes_per_block
    → follow disk above at pointer ≡ ok (followed disk above at pointer)
follow-followed disk (some block) at pointer h = let e = lt→ltb at inodes_per_block h in rw e refl
follow-followed disk none at pointer h = elim (Bool-cases (at == 0)) [
  | inl e ↦ rw e refl
  | inr e ↦ rw e refl
]

-- Each of the parts of an update without new blocks.
triple_step :
    (p : BlockPointer) (disk : Disk) (it : BlockIterator)
    → IsInside p
    → update_triple p none (disk, it) ≡ ok (disk, record it { triple_block = triple_of disk p it })
unfolding update_triple put
triple_step p disk it inside =
    let e =
      follow-followed disk none p.triply_indirect_block it.inode_metadata.triply_indirect_ptr
        (omega (arith, inside.3)) in
    rw e refl

double_step :
    (p : BlockPointer) (disk : Disk) (it : BlockIterator)
    → IsInside p
    → update_double p none (disk, it)
      ≡ ok (
        disk,
        record it {
          double_block =
              followed disk it.triple_block p.doubly_indirect_block
                it.inode_metadata.doubly_indirect_ptr;
        },
      )
unfolding update_double put
double_step p disk it inside =
    let e =
      follow-followed disk it.triple_block p.doubly_indirect_block
        it.inode_metadata.doubly_indirect_ptr inside.2 in
    rw e refl

single_step :
    (p : BlockPointer) (disk : Disk) (it : BlockIterator)
    → IsInside p
    → update_single p none (disk, it)
      ≡ ok (
        disk,
        record it {
          single_block =
              followed disk it.double_block p.singly_indirect_block
                it.inode_metadata.singly_indirect_ptr;
        },
      )
unfolding update_single put
single_step p disk it inside =
    let e =
      follow-followed disk it.double_block p.singly_indirect_block
        it.inode_metadata.singly_indirect_ptr inside.1 in
    rw e refl

same_triply :
    (p c : BlockPointer)
    → leb 3 (invalidated p c) ≡ false
    → c.triply_indirect_block ≡ p.triply_indirect_block
unfolding invalidated
same_triply p c h = ground (arith, h)

same_doubly :
    (p c : BlockPointer)
    → leb 2 (invalidated p c) ≡ false
    → (c.triply_indirect_block ≡ p.triply_indirect_block)
      × (c.doubly_indirect_block ≡ p.doubly_indirect_block)
unfolding invalidated
same_doubly p c h = (ground (arith, h), ground (arith, h))

same_singly :
    (p c : BlockPointer)
    → leb 1 (invalidated p c) ≡ false
    → (c.triply_indirect_block ≡ p.triply_indirect_block)
      × (c.doubly_indirect_block ≡ p.doubly_indirect_block)
      × (c.singly_indirect_block ≡ p.singly_indirect_block)
unfolding invalidated
same_singly p c h = (ground (arith, h), ground (arith, h), ground (arith, h))

-- The iterator has the blocks of its current pointer.
pub record IsLoaded (disk : Disk) (it : BlockIterator) : Type 0 where
  pub triple : it.triple_block ≡ triple_of disk it.current_pointer it
  pub double : it.double_block ≡ double_of disk it.current_pointer it
  pub single : it.single_block ≡ single_of disk it.current_pointer it

module _ (p : BlockPointer) (disk : Disk) (it : BlockIterator) (inside : IsInside p)
    (held : IsLoaded disk it) where
  abbrev count : ℕ
  count = invalidated p it.current_pointer

  first_part :
      (if leb 3 count then update_triple p none (disk, it) else ok (disk, it))
      ≡ ok (disk, record it { triple_block = triple_of disk p it })
  first_part = elim (Bool-cases (leb 3 count)) [
    | inl e ↦ rw e (triple_step p disk it inside)
    | inr e ↦ rw e (
        ap (λ (x : Option ℕ). ok (disk, record it { triple_block = x }))
          (held.triple
            ∙ ap (λ (t : ℕ). followed disk none t it.inode_metadata.triply_indirect_ptr)
                (same_triply p it.current_pointer e)))
  ]

  second_part :
      (if leb 2 count
        then update_double p none (disk, record it { triple_block = triple_of disk p it })
        else ok (disk, record it { triple_block = triple_of disk p it }))
      ≡ ok (
        disk,
        record it { triple_block = triple_of disk p it; double_block = double_of disk p it },
      )
  second_part = elim (Bool-cases (leb 2 count)) [
    | inl e ↦ rw e (double_step p disk (record it { triple_block = triple_of disk p it }) inside)
    | inr e ↦
        let (t, d) = same_doubly p it.current_pointer e in
        rw e (
          ap
            (λ (x : Option ℕ).
              ok (disk, record it { triple_block = triple_of disk p it; double_block = x }))
            (held.double
              ∙ ap
                  (λ (t : ℕ).
                    double_of disk (record it.current_pointer { triply_indirect_block = t }) it)
                  t
              ∙ ap (λ (d : ℕ). double_of disk (record p { doubly_indirect_block = d }) it) d))
  ]

  third_part :
      (if leb 1 count
        then update_single p none (
          disk,
          record it { triple_block = triple_of disk p it; double_block = double_of disk p it },
        )
        else ok (
          disk,
          record it { triple_block = triple_of disk p it; double_block = double_of disk p it },
        ))
      ≡ ok (disk, loaded disk p it)
  unfolding loaded
  third_part = elim (Bool-cases (leb 1 count)) [
    | inl e ↦ rw e (
        single_step p disk
          (record it { triple_block = triple_of disk p it; double_block = double_of disk p it })
          inside)
    | inr e ↦
        let (t, d, s) = same_singly p it.current_pointer e in
        rw e (
          ap
            (λ (x : Option ℕ). ok (
              disk,
              record it {
                triple_block = triple_of disk p it;
                double_block = double_of disk p it;
                single_block = x;
              },
            ))
            (held.single
              ∙ ap
                  (λ (t : ℕ).
                    single_of disk (record it.current_pointer { triply_indirect_block = t }) it)
                  t
              ∙ ap
                  (λ (d : ℕ).
                    single_of disk
                      (record it.current_pointer {
                        triply_indirect_block = p.triply_indirect_block;
                        doubly_indirect_block = d;
                      })
                      it)
                  d
              ∙ ap (λ (s : ℕ). single_of disk (record p { singly_indirect_block = s }) it) s))
  ]

  -- An update without new blocks comes to the blocks of the new pointer, whatever the current one is.
  pub update_blocks-loaded : update_blocks p none (disk, it) ≡ ok (disk, loaded disk p it)
  unfolding update_blocks
  update_blocks-loaded = rw (first_part, second_part, third_part) refl
