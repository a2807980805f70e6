-- ===== src/Memory/Region.antt =====
-- src/kernel/include/memory/definitions.hpp: address ranges and what is known of a mapping.
use ow_os.Common.{
  ℕ, ◌+◌, ◌≤◌, ◌<◌, ◌≡◌, ◌↔◌, arith, Bool, true, false, ◌&&◌, leb, word, word_max, add32, sub32,
}

pub data CachingMode : Type 0 where
  uncacheable write_combining write_through write_protect write_back : CachingMode

-- `region_t`
pub record Region : Type 0 where
  pub address : ℕ
  pub size : ℕ

-- `region_t::end`, the last address: 2 ^ 32 - 1 where the region is empty at 0.
unfoldable pub end : Region → ℕ
end r = sub32 (add32 r.address r.size) 1

unfoldable pub overlaps : Region → Region → Bool
unfolding end
overlaps r other = leb r.address (end other) && leb other.address (end r)

unfoldable pub contains : Region → ℕ → Bool
unfolding end
contains r ptr = leb r.address ptr && leb ptr (end r)

-- `mapping_config_t`
pub record MappingConfig : Type 0 where
  pub readable : Bool
  pub writeable : Bool
  pub userspace : Bool
  pub caching_mode : CachingMode
  pub bounds : Region
  pub alignment : ℕ

-- `mapping_config_t{}`
abbrev pub default_config : MappingConfig
default_config = record {
  readable = true;
  writeable = true;
  userspace = false;
  caching_mode = write_through;
  bounds = record { address = 0; size = word_max };
  alignment = 0;
}

-- `memory_region_t`
pub record MemoryRegion : Type 0 where
  pub virt_address : ℕ
  pub phys_address : ℕ
  pub size : ℕ
  pub mapped : Bool
  pub present : Bool
  pub allocated : Bool
  pub config : MappingConfig

abbrev pub virt_region : MemoryRegion → Region
virt_region m = record { address = m.virt_address; size = m.size }

abbrev pub phys_region : MemoryRegion → Region
phys_region m = record { address = m.phys_address; size = m.size }

-- What `==` and `<` of `memory_region_t` compare.
abbrev pub virt_key : MemoryRegion → ℕ
virt_key m = m.virt_address

-- A range of addresses that is not empty and does not wrap.
pub record IsRange (r : Region) : Type 0 where
  pub nonempty : 0 < r.size
  pub in_word : r.address + r.size ≤ word

pub end_lem : (r : Region) → IsRange r → end r + 1 ≡ r.address + r.size
unfolding end
end_lem r v = omega arith

-- `contains` decides whether an address lies in a range.
pub contains_iff :
    (r : Region) (ptr : ℕ)
    → IsRange r
    → (contains r ptr ≡ true) ↔ ((r.address ≤ ptr) × (ptr < r.address + r.size))
unfolding contains
contains_iff r ptr v = ground (arith, end_lem r v)

-- `overlaps` decides whether two ranges have an address in common.
overlaps_iff :
    (r other : Region)
    → IsRange r
    → IsRange other
    → (overlaps r other ≡ true)
      ↔ ((r.address < other.address + other.size) × (other.address < r.address + r.size))
unfolding overlaps
overlaps_iff r other v w = ground (arith, end_lem r v, end_lem other w)
