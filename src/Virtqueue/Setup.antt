-- ===== src/Virtqueue/Setup.antt =====
-- `virtqueue_start`.
use libvhost_user.Base.{
  ℕ, ◌+◌, ◌-◌, ◌*◌, Bool, false, not, ◌||◌, Option, none, some, ltb, ◌==◌, if◌then◌else◌, ℤ, einval,
  has_any, ◌>>=◌,
}
use libvhost_user.Base.{pos as ok}
use libvhost_user.Memory.{MemoryMap, map_failed, find_gpa_range}
use libvhost_user.Ram.{Ram, write16}
use libvhost_user.Virtqueue.Layout.{max_size, sizeof_desc, Virtqueue, get_avail_event}

unfoldable pub update_avail_event : Virtqueue → Ram → Ram
update_avail_event vq ram =
    if not vq.has_event_idx then ram else write16 ram (get_avail_event vq) vq.last_seen_avail

-- VIRTQ_IS_ALIGNED_PTR
abbrev pub is_aligned : ℕ → ℕ → Bool
is_aligned p align = not (has_any p (align - 1))

-- One of the three parts of the queue: its pointer, or `none` where the code returns -EINVAL.
unfoldable pub map_part : MemoryMap → ℕ → ℕ → ℕ → Option ℕ
map_part mem gpa size align =
    let p = find_gpa_range mem gpa size false in
    if p == map_failed || not (is_aligned p align) then none else some p

abbrev pub desc_size : ℕ → ℕ
desc_size qsize = sizeof_desc * qsize

abbrev pub avail_size : ℕ → ℕ
avail_size qsize = 4 + 2 * qsize + 2

abbrev pub used_size : ℕ → ℕ
used_size qsize = 4 + 8 * qsize + 2

unfoldable pub map_parts : MemoryMap → (qsize desc_gpa avail_gpa used_gpa : ℕ) → Option (ℕ × ℕ × ℕ)
map_parts mem qsize desc_gpa avail_gpa used_gpa = do
  pdesc ← map_part mem desc_gpa (desc_size qsize) 16
  pavail ← map_part mem avail_gpa (avail_size qsize) 2
  pused ← map_part mem used_gpa (used_size qsize) 4
  some (pdesc, pavail, pused)

unfoldable pub started : Virtqueue → ℕ → ℕ × ℕ × ℕ → ℕ → ℤ → Bool → Virtqueue
started vq qsize (pdesc, pavail, pused) avail_base callfd has_event_idx = record vq {
  desc = pdesc;
  avail = pavail;
  used = pused;
  qsize = qsize;
  last_seen_avail = avail_base;
  is_broken = false;
  callfd = callfd;
  has_event_idx = has_event_idx;
}

-- The writes to guest memory at the end of `virtqueue_start`: `used->flags = 0` and the avail event.
unfoldable pub start_ram : Virtqueue → Ram → Ram
start_ram vq ram = update_avail_event vq (write16 ram vq.used 0)

unfoldable pub start :
    MemoryMap
    → Ram
    → Virtqueue
    → (qsize desc_gpa avail_gpa used_gpa avail_base : ℕ) (callfd : ℤ) (has_event_idx : Bool)
    → ℤ × Virtqueue × Ram
start mem ram vq qsize desc_gpa avail_gpa used_gpa avail_base callfd has_event_idx =
    if (qsize == 0 || has_any qsize (qsize - 1)) || ltb max_size qsize
    then (einval, vq, ram)
    else elim (map_parts mem qsize desc_gpa avail_gpa used_gpa) [
      | none ↦ (einval, vq, ram)
      | some parts ↦
          let vq' = started vq qsize parts avail_base callfd has_event_idx in
          (ok 0, vq', start_ram vq' ram)
    ]
