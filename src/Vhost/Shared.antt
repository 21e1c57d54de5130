-- ===== src/Vhost/Shared.antt =====
-- Which memory a client shares by SET_MEM_TABLE.
use libvhost_user.Base.{
  ℕ, zero, suc, ◌+◌, ◌-◌, ◌≤◌, ◌<◌, ◌≡◌, ◌≢◌, ◌⊎◌, ◌↔◌, refl, ap, sym, subst, ◌∙◌, Bool, true,
  false, ◌||◌, if◌then◌else◌, List, [], ◌∷◌, ◌++◌, ◌==◌, none, some, ℤ, arith, inl, inr, Bool-cases,
  u64_mod,
}
use libvhost_user.Base.{pos as ok}
use libvhost_user.Memory.{Region, MemoryMap, map_failed, add_guest_region, init_memory_map}
use libvhost_user.Memory.Spec.{has, host}
use libvhost_user.Memory.Range.{host_readable}
use libvhost_user.Memory.Valid.{IsRegion, IsValid}
use libvhost_user.Memory.Insert.{
  add_guest_region-IsValid, add_guest_region-status, host-add_guest_region,
}
use libvhost_user.System.{Call, close}
use libvhost_user.Vhost.Protocol.{Message, get_num_regions, get_region}
use libvhost_user.Vhost.Device.{VhostDev}
use libvhost_user.Vhost.MemTable.{Mmap, map_regions, set_mem_table, reset_memory_map, unmap_calls}
use libvhost_user.Vhost.Table.{IsMmap, empty-IsValid, get_region-IsRegion}

module _ (mmap : Mmap) (msg : Message) (fds : ℕ → ℤ) where
  -- A region of the message with its mapping.
  abbrev pub mapped : ℕ → Region
  mapped i =
      let mr = get_region msg i in
      record {
        gpa = mr.guest_addr;
        len = mr.size;
        hva = mmap i (fds i) mr.size mr.mmap_offset;
        ro = false;
      }

  -- The guest address is in that region, and in its mapping it is at `p`.
  abbrev pub IsAt : ℕ → ℕ → ℕ → Type 0
  IsAt j a p = (has (mapped j) a ≡ true) × (p ≡ (mapped j).hva + (a - (mapped j).gpa))

  -- It is in one of `count` regions, from `i` on.
  abbrev pub IsAmong : ℕ → ℕ → ℕ → ℕ → Type 0
  IsAmong i count a p = (j : ℕ) × (i ≤ j) × (j < i + count) × IsAt j a p

  abbrev added : ℕ → MemoryMap → ℤ × MemoryMap
  added i mem = add_guest_region mem (mapped i).gpa (mapped i).len (mapped i).hva false

  any_access : (b : Bool) {q : ℕ} → (if b || true then some q else none) ≡ some q
  any_access true = refl
  any_access false = refl

  host-added :
      (i : ℕ) (mem : MemoryMap) (b : Bool) (a p : ℕ)
      → IsValid mem
      → IsRegion (mapped i)
      → (added i mem).0 ≡ ok 0
      → (host (added i mem).1 b a ≡ some p) ↔ ((host mem b a ≡ some p) ⊎ IsAt i a p)
  host-added i mem b a p v w e =
      let now = host-add_guest_region mem (mapped i) b a v w e in
      let apart = ((add_guest_region-status mem (mapped i) v w).0.0 e).1 a in
      let before = host_readable mem b a {p = p} in
      elim (Bool-cases (has (mapped i) a)) [
        | inl t ↦
            let there : host (added i mem).1 b a ≡ some ((mapped i).hva + (a - (mapped i).gpa)) =
              rw t at now ∙ any_access b in
            (
              (λ f. inr (t, ground (arith, f, there))),
              elim [
                | inl f ↦ absurd (ground (arith, before f, apart t))
                | inr (h, q) ↦ there ∙ ap some (sym q)
              ],
            )
        | inr t ↦
            let kept : host (added i mem).1 b a ≡ host mem b a = rw t at now in
            (
              (λ f. inl (sym kept ∙ f)),
              elim [ inl f ↦ kept ∙ f | inr (h, q) ↦ absurd (ground (arith, h, t)) ],
            )
      ]

  -- A region that is taken, and the rest of the table.
  map_regions_next :
      (count i : ℕ) (mem : MemoryMap) (calls : List Call)
      → (map_regions mmap msg fds (suc count) i mem calls).0 ≡ ok 0
      → ((mapped i).len ≢ 0)
        × ((mapped i).hva ≢ map_failed)
        × ((added i mem).0 ≡ ok 0)
        × (map_regions mmap msg fds (suc count) i mem calls
            ≡ map_regions mmap msg fds count (i + 1) (added i mem).1 (calls ++ close (fds i) ∷ []))
  unfolding map_regions
  map_regions_next count i mem calls e = (ground arith, ground arith, ground arith, ground arith)

  IsAmong-cases :
      (i count a p : ℕ) → IsAmong i (suc count) a p ↔ (IsAt i a p ⊎ IsAmong (i + 1) count a p)
  IsAmong-cases i count a p = (
    λ (j, from, below, h). elim (Bool-cases (j == i)) [
      | inl t ↦ let same : j ≡ i = ground (arith, t) in inl (subst {A = ℕ} (λ k. IsAt k a p) same h)
      | inr t ↦ inr (j, ground (arith, t, from), omega arith, h)
    ],
    elim [
      | inl h ↦ (i, omega arith, omega arith, h)
      | inr (j, from, below, h) ↦ (j, omega arith, omega arith, h)
    ],
  )

  module _ (w : IsMmap mmap)
      (fits : (i : ℕ)
        → i < get_num_regions msg
        → (get_region msg i).guest_addr + (get_region msg i).size ≤ u64_mod) where
    host-map_regions :
        (count i : ℕ) (mem : MemoryMap) (calls : List Call) (b : Bool) (a p : ℕ)
        → i + count ≤ get_num_regions msg
        → IsValid mem
        → (map_regions mmap msg fds count i mem calls).0 ≡ ok 0
        → (host (map_regions mmap msg fds count i mem calls).1 b a ≡ some p)
          ↔ ((host mem b a ≡ some p) ⊎ IsAmong i count a p)
    host-map_regions zero i mem calls b a p h v e =
        unfold map_regions in
        (
          (λ f. inl f),
          elim [ inl f ↦ f | inr (j, from, below, k) ↦ absurd (omega (arith, from, below)) ],
        )
    host-map_regions (suc count) i mem calls b a p h v e =
        let (nonempty, there, ok_added, next) = map_regions_next count i mem calls e in
        let region = get_region-IsRegion mmap msg fds w fits i (omega arith) nonempty there in
        let rest =
          host-map_regions count (i + 1) (added i mem).1 (calls ++ close (fds i) ∷ []) b a p
            (omega arith) (add_guest_region-IsValid mem (mapped i) v region)
            (sym (ap (λ (r : ℤ × MemoryMap × List Call). r.0) next) ∙ e) in
        let first = host-added i mem b a p v region ok_added in
        let split = IsAmong-cases i count a p in
        let same = ap (λ (r : ℤ × MemoryMap × List Call). host r.1 b a) next in
        (
          λ f. elim (rest.0 (sym same ∙ f)) [
            | inl g ↦ elim (first.0 g) [ inl k ↦ inl k | inr k ↦ inr (split.1 (inl k)) ]
            | inr k ↦ inr (split.1 (inr k))
          ],
          elim [
            | inl f ↦ same ∙ rest.1 (inl (first.1 (inl f)))
            | inr k ↦ elim (split.0 k) [
              | inl g ↦ same ∙ rest.1 (inl (first.1 (inr g)))
              | inr g ↦ same ∙ rest.1 (inr g)
            ]
          ],
        )

    set_mem_table_accepted :
        (dev : VhostDev)
        → (set_mem_table mmap msg fds dev).0 ≡ ok 0
        → let r =
            map_regions mmap msg fds
              (get_num_regions msg)
              0
              init_memory_map
              (unmap_calls dev.memory_map) in
          (r.0 ≡ ok 0) × ((set_mem_table mmap msg fds dev).1.memory_map ≡ r.1)
    unfolding set_mem_table reset_memory_map
    set_mem_table_accepted dev e = (ground arith, ground arith)

    host-init : (b : Bool) (a p : ℕ) → host init_memory_map b a ≢ some p
    unfolding host
    host-init b a p e = ground arith

    -- After a table that is accepted, a guest address is mapped, for any access, just when it lies in
    -- one of the regions that the client sent, and then to its place in the mapping of that region;
    -- nothing of the memory from before is mapped. No region wraps around the guest's address space,
    -- and `mmap` keeps mappings off the top of the address space.
    pub host-set_mem_table :
        (dev : VhostDev) (b : Bool) (a p : ℕ)
        → (set_mem_table mmap msg fds dev).0 ≡ ok 0
        → (host (set_mem_table mmap msg fds dev).1.memory_map b a ≡ some p)
          ↔ IsAmong 0 (get_num_regions msg) a p
    host-set_mem_table dev b a p e =
        let (done, same) = set_mem_table_accepted dev e in
        let n = get_num_regions msg in
        let all =
          host-map_regions n 0 init_memory_map (unmap_calls dev.memory_map) b a p (omega arith)
            empty-IsValid done in
        let at = ap (λ (m : MemoryMap). host m b a) same in
        (
          λ f. elim (all.0 (sym at ∙ f)) [ inl g ↦ absurd (host-init b a p g) | inr k ↦ k ],
          λ k. at ∙ all.1 (inr k),
        )
