-- ===== src/Memory/Spec.antt =====
-- What a memory map stands for: the host address of each guest address.
use libvhost_user.Base.{
  ℕ, ◌+◌, ◌-◌, Bool, not, ◌&&◌, ◌||◌, Option, none, some, [], ◌∷◌, ltb, leb, if◌then◌else◌,
}
use libvhost_user.Memory.{Region, MemoryMap}

-- With no wrap-around.
abbrev pub has : Region → ℕ → Bool
has r a = leb r.gpa a && ltb a (r.gpa + r.len)

-- An access that is not read-only needs a region that is not.
unfoldable pub host : MemoryMap → Bool → ℕ → Option ℕ
host [] ro a = none
host (r ∷ rs) ro a =
    if has r a then (if ro || not r.ro then some (r.hva + (a - r.gpa)) else none) else host rs ro a
