-- ===== src/Memory/Valid.antt =====
-- The invariant of the region table: regions that do not wrap, sorted and apart, at most 16.
use libvhost_user.Base.{ℕ, ◌+◌, ◌≤◌, ◌<◌, [], ◌∷◌, u64_mod, length}
use libvhost_user.Memory.{Region, MemoryMap, max_regions}

pub record IsRegion (r : Region) : Type 0 where
  pub nonempty : 0 < r.len
  pub gpa_fits : r.gpa + r.len ≤ u64_mod
  -- No mapping reaches the last byte of the address space, so no pointer into one is MAP_FAILED.
  pub hva_fits : r.hva + r.len < u64_mod

-- Each region starts at or behind the end of the one before it.
abbrev pub Above : ℕ → MemoryMap → Type 0
Above lo [] = Unit {0}
Above lo (r ∷ rs) = (lo ≤ r.gpa) × IsRegion r × Above (r.gpa + r.len) rs

pub record IsValid (mem : MemoryMap) : Type 0 where
  pub sorted : Above 0 mem
  pub bounded : length mem ≤ max_regions
