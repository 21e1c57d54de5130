-- ===== src/Virtqueue/Ready.antt =====
-- A queue that `virtqueue_start` accepted is one that the theorems on chains and rings ask for.
use libvhost_user.Base.{
  ℕ, ◌+◌, ◌*◌, ◌^◌, ◌≤◌, ◌<◌, ◌≡◌, ◌≢◌, ◌∙◌, refl, ap, sym, subst, Bool, true, false, some, arith,
  ℤ, inl, inr, u64_mod, u32_mod, u16_mod,
}
use libvhost_user.Base.{pos as ok}
use libvhost_user.Memory.{MemoryMap, map_failed, find_gpa_range}
use libvhost_user.Memory.Valid.{IsValid}
use libvhost_user.Memory.Range.{find_gpa_range_iff, host-find_gpa_range, host_readable}
use libvhost_user.Memory.Gap.{IsJoined, find_gpa_range-bytes}
use libvhost_user.Ram.{Ram}
use libvhost_user.Ram.Laws.{Apart}
use libvhost_user.Virtqueue.Layout.{max_size, sizeof_desc, Virtqueue}
use libvhost_user.Virtqueue.Setup.{desc_size, avail_size, used_size, started, start}
use libvhost_user.Virtqueue.Start.{IsPart, start_lem}
use libvhost_user.Virtqueue.Chain.{IsMapped}
use libvhost_user.Virtqueue.Fifo.{IsRings, size_pos}

module _ (mem : MemoryMap) (v : IsValid mem) (w : IsJoined mem) where
  IsPart-IsMapped :
      (gpa size align p : ℕ)
      → gpa < u64_mod
      → 0 < size
      → size < u32_mod
      → IsPart mem gpa size align p
      → IsMapped mem true p size
  IsPart-IsMapped gpa size align p h k fits part =
      let found : find_gpa_range mem gpa size false ≢ map_failed =
        (find_gpa_range_iff mem gpa size false v h k fits).1 part.mapped in
      let first : some (find_gpa_range mem gpa size false) ≡ some p =
        sym (host-find_gpa_range mem gpa size false v h k fits found) ∙ part.first in
      let same : find_gpa_range mem gpa size false ≡ p = cc in
      record {
        gpa = gpa;
        bytes = λ i b. host_readable mem false (gpa + i) (
            find_gpa_range-bytes mem gpa size false v w h k fits found i b
            ∙ ap (λ n. some (n + i)) same);
      }

-- A queue that is ready: unbroken, its rings in order, and its descriptor table readable memory.
pub record IsReady (mem : MemoryMap) (vq : Virtqueue) : Type 0 where
  pub rings : IsRings vq
  pub unbroken : vq.is_broken ≡ false
  pub fits : vq.qsize ≤ max_size
  pub table_mapped : IsMapped mem true vq.desc (sizeof_desc * vq.qsize)

-- A queue that virtqueue_start accepts is ready, in a valid and joined memory map, if the driver put
-- the two rings apart.
pub start-IsReady :
    (mem : MemoryMap) (ram ram' : Ram) (vq vq' : Virtqueue)
    (qsize desc_gpa avail_gpa used_gpa avail_base : ℕ) (callfd : ℤ) (has_event_idx : Bool)
    → IsValid mem
    → IsJoined mem
    → desc_gpa < u64_mod
    → avail_gpa < u64_mod
    → used_gpa < u64_mod
    → avail_base < u16_mod
    → start mem ram vq qsize desc_gpa avail_gpa used_gpa avail_base callfd has_event_idx
      ≡ (ok 0, vq', ram')
    → Apart vq'.avail (avail_size qsize) vq'.used (used_size qsize)
    → IsReady mem vq'
unfolding started
start-IsReady mem ram ram' vq vq' qsize desc_gpa avail_gpa used_gpa avail_base callfd has_event_idx
      v w hd ha hu hb e apart =
    elim (start_lem mem ram vq qsize desc_gpa avail_gpa used_gpa avail_base callfd has_event_idx v
      hd ha hu) [
        | inr (no_parts, f) ↦ absurd (ground (arith, e, f))
        | inl (d, a, u, s, f) ↦
            let same : started vq qsize (d, a, u) avail_base callfd has_event_idx ≡ vq' =
              ap (λ (r : ℤ × Virtqueue × Ram). r.1) (sym f ∙ e) in
            let apart' =
              subst {A = Virtqueue} (λ q. Apart q.avail (avail_size qsize) q.used (used_size qsize))
                (sym same) apart in
            let rings : IsRings (started vq qsize (d, a, u) avail_base callfd has_event_idx) =
              record {
                exponent = s.exponent;
                pow2 = s.pow2;
                small = omega (arith, s.small);
                seen_fits = hb;
                apart = apart';
              } in
            subst {A = Virtqueue} (IsReady mem) same (record {
              rings = rings;
              unbroken = refl;
              fits = s.small;
              table_mapped =
                  IsPart-IsMapped mem v w desc_gpa (desc_size qsize) (2 ^ 4) d hd
                    (omega (arith, size_pos rings)) (omega (arith, s.small)) s.desc;
            })
      ]
