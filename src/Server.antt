-- ===== src/Server.antt =====
-- The test server of tools/server/server.c: `handle_rw` and `process_event`.
use libvhost_user.Base.{
  ℕ, zero, suc, ◌+◌, ◌-◌, ◌*◌, ◌/◌, ◌%◌, ◌^◌, min, Bool, true, false, not, Option, none, some, List,
  [], ◌∷◌, ◌++◌, ◌==◌, ltb, if◌then◌else◌, u32_mod, u64_mod, add64, get_elem?, ℤ, pos, ◌==ℤ◌,
  enoent,
}
use libvhost_user.Base.{pos as ok}
use libvhost_user.Memory.{MemoryMap}
use libvhost_user.Ram.{Ram, write8}
use libvhost_user.System.{Call}
use libvhost_user.Virtqueue.Layout.{Virtqueue}
use libvhost_user.Blk.Device.{VirtioBlk, sector_shift}
use libvhost_user.Blk.Request.{
  Iovec, BlkIoType, read, write, flush, get_id, success, BlkIoRequest, VirtioBlkIo,
}
use libvhost_user.Blk.Dispatch.{Outcome, blk_dequeue_request, blk_complete_request}
pub mod Copy
pub mod Vectors
pub mod Reads
pub mod Writes
pub mod Transfer
pub mod Main
pub mod Life
pub mod Placed
pub mod Rounds
pub mod Pending
pub mod Moved
pub mod Round
pub mod Fixture
mod Tests
mod LifeTests

-- The disk image behind `g_fd`, with `F` for its state: `pread` and `pwrite` of `count` bytes at the
-- address `ptr` of memory and at an offset of the file.
pub record DiskImage (F : Type 0) : Type 0 where
  pub pread : F → Ram → (ptr count offset : ℕ) → ℤ × Ram
  pub pwrite : F → Ram → (ptr count offset : ℕ) → ℤ × F

-- The messages with which `handle_rw` ends the process.
pub data Death : Type 0 where
  not_enough_iovecs unexpected_type io_failed space_remaining : Death

-- What `handle_rw` leaves if it returns, always with 0; `bad_vec` is a read behind the vectors.
pub data BioResult (F : Type 0) : Type 0 where
  finished : F → Ram → BioResult F
  died : Death → BioResult F
  bad_vec : BioResult F

-- The number of sectors for a vector, a 32-bit word.
unfoldable pub vec_sectors : Iovec → (total : ℕ) → ℕ
vec_sectors v total =
    let nsectors = v.len / 2 ^ sector_shift % u32_mod in
    if ltb total nsectors then total else nsectors

-- "vhost-blk-0"
abbrev pub server_id : List ℕ
server_id = 118 ∷ 104 ∷ 111 ∷ 115 ∷ 116 ∷ 45 ∷ 98 ∷ 108 ∷ 107 ∷ 45 ∷ 48 ∷ []

-- `snprintf` of a text into `len` bytes at `ptr`, the last of which is a zero.
unfoldable pub snprintf : Ram → (ptr len : ℕ) → List ℕ → Ram
snprintf ram ptr zero text = ram
snprintf ram ptr (suc zero) text = write8 ram ptr 0
snprintf ram ptr (suc (suc n)) [] = write8 ram ptr 0
snprintf ram ptr (suc (suc n)) (c ∷ text) = snprintf (write8 ram ptr c) (ptr + 1) (suc n) text

module _ {F : Type 0} where
  -- The end of the loop's body: `rest` is what follows.
  unfoldable pub check_result :
      (len count : ℕ) → (rest : F → Ram → BioResult F) → Option (ℤ × F × Ram) → BioResult F
  check_result len count rest none = died unexpected_type
  check_result len count rest (some (res, file, ram)) =
      let next = rest file ram in
      if not (res ==ℤ pos count)
      then died io_failed
      else if not (len - count == 0)
      then died space_remaining
      else next

  unfoldable pub put_id : F → Ram → Option Iovec → BioResult F
  put_id file ram none = bad_vec
  put_id file ram (some v) = finished file (snprintf ram v.ptr v.len server_id)

module _ {F : Type 0} (image : DiskImage F) where
  -- The call of `pread` or `pwrite`, and what it leaves; `none` for another type.
  unfoldable pub transfer : BlkIoType → F → Ram → (ptr count offset : ℕ) → Option (ℤ × F × Ram)
  transfer read file ram ptr count offset =
      let (res, ram') = image.pread file ram ptr count offset in some (res, file, ram')
  transfer write file ram ptr count offset =
      let (res, file') = image.pwrite file ram ptr count offset in some (res, file', ram)
  transfer flush file ram ptr count offset = none
  transfer get_id file ram ptr count offset = none

  -- The body of the loop for a vector; `rest` gets the sectors done.
  unfoldable pub handle_vec :
      BlkIoType
      → (sector total : ℕ) → (rest : ℕ → F → Ram → BioResult F) → Option Iovec
      → F
      → Ram
      → BioResult F
  handle_vec type sector total rest none file ram = bad_vec
  handle_vec type sector total rest (some v) file ram =
      let nsectors = vec_sectors v total in
      let count = nsectors * 2 ^ sector_shift % u32_mod in
      let offset = sector * 2 ^ sector_shift % u64_mod in
      check_result v.len count (rest nsectors) (transfer type file ram v.ptr count offset)

  -- The loop of `handle_rw` at the vector `idx`, with `n` vectors to go.
  unfoldable pub handle_from : BlkIoRequest → (n idx sector total : ℕ) → F → Ram → BioResult F
  handle_from bio zero idx sector total file ram =
      if total == 0 then finished file ram else died not_enough_iovecs
  handle_from bio (suc n) idx sector total file ram =
      let rest =
        handle_vec bio.type sector total
          (λ done file' ram'.
            handle_from bio n (suc idx) (add64 sector done) (total - done) file' ram')
          (get_elem? bio.vecs idx) file ram in
      if total == 0 then finished file ram else rest

  unfoldable pub handle_rw : BlkIoRequest → F → Ram → BioResult F
  handle_rw bio file ram = handle_from bio bio.nvecs 0 bio.sector bio.total_sectors file ram

  -- A GET_ID is answered without `handle_rw`.
  unfoldable pub serve_type : BlkIoType → BlkIoRequest → F → Ram → BioResult F
  serve_type get_id bio file ram = put_id file ram (get_elem? bio.vecs 0)
  serve_type read bio file ram = handle_rw bio file ram
  serve_type write bio file ram = handle_rw bio file ram
  serve_type flush bio file ram = handle_rw bio file ram

-- The state that `process_event` works on; `live` counts the requests that are allocated.
pub record ServerState (F : Type 0) : Type 0 where
  pub file : F
  pub vq : Virtqueue
  pub ram : Ram
  pub live : ℕ
  pub calls : List Call

-- How `process_event` ends. `wild_read` is its read of `bio->type` after an error, when `bio` is not
-- set or is the request that was completed last; the error is what it would return.
pub data Processed (F : Type 0) : Type 0 where
  returned wild_read : ℤ → ServerState F → Processed F
  exited : Death → Processed F
  read_behind out_of_fuel : Processed F

module _ {F : Type 0} where
  abbrev pub state_of : F → List Call → Outcome → ServerState F
  state_of file calls o = record {
    file = file;
    vq = o.vq;
    ram = o.ram;
    live = o.live;
    calls = calls ++ o.calls;
  }

  -- `virtio_blk_complete_request`, always with BLK_SUCCESS
  unfoldable pub complete :
      VirtioBlkIo
      → List Call
      → Outcome
      → (again : ServerState F → Processed F) → BioResult F
      → Processed F
  complete io calls o again (finished file ram) =
      let ((vq, ram', done), live) = blk_complete_request o.live io success o.vq ram in
      again
        (record { file = file; vq = vq; ram = ram'; live = live; calls = calls ++ o.calls ++ done })
  complete io calls o again (died d) = exited d
  complete io calls o again bad_vec = read_behind

module _ {F : Type 0} (image : DiskImage F) where
  unfoldable pub process_io :
      (again : ServerState F → Processed F)
      → F
      → List Call
      → Outcome
      → Option VirtioBlkIo
      → Processed F
  process_io again file calls o none = wild_read o.res (state_of file calls o)
  process_io again file calls o (some io) =
      complete io calls o again (serve_type image io.bio.type io.bio file o.ram)

  -- One round of the loop of `process_event`; `again` is what follows.
  unfoldable pub process_one :
      (ℕ → Bool)
      → MemoryMap
      → VirtioBlk
      → (again : ServerState F → Processed F) → ServerState F
      → Processed F
  process_one can_alloc mem vblk again st =
      let o = blk_dequeue_request can_alloc mem vblk st.live st.vq st.ram in
      let rest = process_io again st.file st.calls o o.io in
      if o.res ==ℤ enoent then returned (ok 0) (state_of st.file st.calls o) else rest

  -- `process_event`, where `fuel` bounds the rounds: the driver may add chains all the time.
  unfoldable pub process_event :
      (ℕ → Bool) → MemoryMap → VirtioBlk → (fuel : ℕ) → ServerState F → Processed F
  process_event can_alloc mem vblk zero st = out_of_fuel
  process_event can_alloc mem vblk (suc fuel) st =
      process_one can_alloc mem vblk (process_event can_alloc mem vblk fuel) st
