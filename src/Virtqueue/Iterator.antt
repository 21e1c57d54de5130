-- ===== src/Virtqueue/Iterator.antt =====
-- Walking a descriptor chain: `virtqueue_next_buffer`.
use libvhost_user.Base.{
  ℕ, zero, suc, ◌+◌, ◌*◌, ◌/◌, ◌%◌, Bool, true, false, not, ◌||◌, Option, none, some, ltb, leb,
  ◌==◌, if◌then◌else◌, has_any, add32, u16_mod,
}
use libvhost_user.Memory.{MemoryMap, map_failed, find_gpa_range}
use libvhost_user.Ram.{Ram}
use libvhost_user.Virtqueue.Layout.{
  invalid_desc_id, desc_f_next, desc_f_write, desc_f_indirect, sizeof_desc, Desc, read_desc, Buffer,
  Virtqueue, Iter,
}

abbrev pub mark_broken : Virtqueue → Virtqueue
mark_broken vq = record vq { is_broken = true }

unfoldable pub map_buffer : MemoryMap → Desc → ℕ
map_buffer mem d = find_gpa_range mem d.addr d.len (not (has_any d.flags desc_f_write))

unfoldable pub start_desc_chain : Virtqueue → ℕ → Iter
start_desc_chain vq head = record {
  head = head;
  cur = head;
  ptbl = vq.desc;
  tbl_size = vq.qsize;
  is_indirect = false;
  nseen = 0;
}

-- `&iter->ptbl[iter->cur]`
abbrev pub cur_desc : Iter → ℕ
cur_desc it = it.ptbl + sizeof_desc * it.cur

-- How the `while` loop over indirect descriptors ends.
pub data Resolved : Type 0 where
  broken : Iter → Resolved
  at : Iter → Desc → Resolved
  out_of_fuel : Resolved

abbrev pub enter_table : Iter → Desc → ℕ → Iter
enter_table it d hva = record it {
  is_indirect = true;
  ptbl = hva;
  tbl_size = (d.len / sizeof_desc) % u16_mod;
  cur = 0;
  nseen = add32 it.nseen 1;
}

-- An indirect descriptor inside an indirect table is refused, so two rounds of fuel are enough.
unfoldable pub resolve : ℕ → MemoryMap → Ram → Iter → Desc → Resolved
resolve zero mem ram it d = out_of_fuel
resolve (suc fuel) mem ram it d =
    let hva = map_buffer mem d in
    let inner = resolve fuel mem ram (enter_table it d hva) (read_desc ram hva) in
    if not (has_any d.flags desc_f_indirect)
    then at it d
    else if it.is_indirect || has_any d.flags desc_f_next
    then broken it
    else if (d.len / sizeof_desc) == 0 || hva == map_failed
    then broken it
    else inner

-- The label `mark_broken` of `virtqueue_next_buffer`.
abbrev pub give_up : Virtqueue → Iter → Option Buffer × Virtqueue × Iter
give_up vq it = (none, mark_broken vq, record it { cur = invalid_desc_id })

abbrev pub buffer_of : Desc → ℕ → Buffer
buffer_of d hva = record { ptr = hva; len = d.len; ro = not (has_any d.flags desc_f_write) }

-- `virtqueue_next_buffer` from the test for loops on, at a descriptor of the current table.
unfoldable pub take_buffer : MemoryMap → Virtqueue → Iter → Desc → Option Buffer × Virtqueue × Iter
take_buffer mem vq it0 d =
    let it = record it0 { nseen = add32 it0.nseen 1 } in
    let hva = map_buffer mem d in
    if ltb vq.qsize it.nseen
    then give_up vq it
    else if d.len == 0 || hva == map_failed
    then give_up vq it
    else if has_any d.flags desc_f_next
    then if leb it.tbl_size d.next
      then give_up vq it
      else (some (buffer_of d hva), vq, record it { cur = d.next })
    else (some (buffer_of d hva), vq, record it { cur = invalid_desc_id })

unfoldable pub take_resolved :
    MemoryMap → Virtqueue → Iter → Resolved → Option Buffer × Virtqueue × Iter
take_resolved mem vq it0 (broken it) = give_up vq it
take_resolved mem vq it0 (at it d) = take_buffer mem vq it d
take_resolved mem vq it0 out_of_fuel = give_up vq it0

unfoldable pub next_buffer : MemoryMap → Ram → Virtqueue → Iter → Option Buffer × Virtqueue × Iter
next_buffer mem ram vq it =
    if vq.is_broken || it.cur == invalid_desc_id
    then (none, vq, it)
    else take_resolved mem vq it (resolve 2 mem ram it (read_desc ram (cur_desc it)))

unfoldable pub has_next_buffer : Iter → Bool
has_next_buffer it = not (it.cur == invalid_desc_id)
