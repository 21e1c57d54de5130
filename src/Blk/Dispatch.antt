-- ===== src/Blk/Dispatch.antt =====
-- The rest of virtio/blk.c: GET_ID, the dispatch on the request type, dequeue and completion.
-- Null pointers given by the caller are not modelled.
use libvhost_user.Base.{
  ℕ, ◌+◌, ◌-◌, Bool, not, ◌||◌, Option, none, some, List, [], ◌∷◌, ◌==◌, if◌then◌else◌, ℤ, enoent,
  eio, enxio,
}
use libvhost_user.Base.{pos as ok}
use libvhost_user.Memory.{MemoryMap}
use libvhost_user.Ram.{Ram, write8}
use libvhost_user.System.{Call}
use libvhost_user.Virtqueue.Layout.{Virtqueue, Iter, Buffer}
use libvhost_user.Virtqueue.Iterator.{next_buffer}
use libvhost_user.Virtqueue.Rings.{dequeue_avail, enqueue_used, release_buffers}
use libvhost_user.Blk.Device.{VirtioBlk}
use libvhost_user.Blk.Request.{
  BlkIoStatus, status_value, get_id, VirtioBlkIo, BlkReq, t_in, t_out, t_get_id, sizeof_req,
  read_req, is_good_status_buf,
}
use libvhost_user.Blk.Rw.{IoResult, blk_rw}

abbrev pub refuse : Virtqueue → Iter → ℕ → IoResult
refuse vq it live = record { io = none; vq = vq; iter = it; live = live }

-- `blk_get_id` behind its two calls of `virtqueue_next_buffer`.
unfoldable pub get_id_of :
    (can_alloc : ℕ → Bool) (live : ℕ) (data_buf status_buf : Buffer) → Virtqueue → Iter → IoResult
get_id_of can_alloc live data_buf status_buf vq it =
    if not (is_good_status_buf status_buf)
    then refuse vq it live
    else if not (can_alloc 1)
    then refuse vq it live
    else record {
      io = some (record {
        pstatus = status_buf.ptr;
        head = it.head;
        bio = record {
          type = get_id;
          sector = 0;
          total_sectors = 0;
          nvecs = 1;
          vecs = record { ptr = data_buf.ptr; len = data_buf.len } ∷ [];
        };
      });
      vq = vq;
      iter = it;
      live = live + 1;
    }

unfoldable pub get_id_second :
    (can_alloc : ℕ → Bool) (live : ℕ) → Buffer → Option Buffer × Virtqueue × Iter → IoResult
get_id_second can_alloc live data_buf (none, vq, it) = refuse vq it live
get_id_second can_alloc live data_buf (some status_buf, vq, it) =
    get_id_of can_alloc live data_buf status_buf vq it

unfoldable pub get_id_first :
    (ℕ → Bool) → MemoryMap → Ram → (live : ℕ) → Option Buffer × Virtqueue × Iter → IoResult
get_id_first can_alloc mem ram live (none, vq, it) = refuse vq it live
get_id_first can_alloc mem ram live (some data_buf, vq, it) =
    get_id_second can_alloc live data_buf (next_buffer mem ram vq it)

unfoldable pub blk_get_id : (ℕ → Bool) → MemoryMap → Ram → Virtqueue → Iter → (live : ℕ) → IoResult
blk_get_id can_alloc mem ram vq it live =
    get_id_first can_alloc mem ram live (next_buffer mem ram vq it)

-- The `switch` on the request type.
unfoldable pub switch_type :
    (ℕ → Bool) → MemoryMap → Ram → VirtioBlk → BlkReq → Virtqueue → Iter → (live : ℕ) → IoResult
switch_type can_alloc mem ram vblk hdr vq it live =
    if hdr.type == t_in || hdr.type == t_out
    then blk_rw can_alloc mem ram vblk hdr vq it live
    else if hdr.type == t_get_id
    then blk_get_id can_alloc mem ram vq it live
    else refuse vq it live

-- `handle_blk_request` up to the label `drop_request`.
unfoldable pub parse_first :
    (ℕ → Bool)
    → MemoryMap
    → Ram
    → VirtioBlk
    → (live : ℕ) → Option Buffer × Virtqueue × Iter
    → IoResult
parse_first can_alloc mem ram vblk live (none, vq, it) = refuse vq it live
parse_first can_alloc mem ram vblk live (some buf, vq, it) =
    if not (buf.len == sizeof_req)
    then refuse vq it live
    else switch_type can_alloc mem ram vblk (read_req ram buf.ptr) vq it live

unfoldable pub parse :
    (ℕ → Bool) → MemoryMap → Ram → VirtioBlk → Virtqueue → Iter → (live : ℕ) → IoResult
parse can_alloc mem ram vblk vq it live =
    parse_first can_alloc mem ram vblk live (next_buffer mem ram vq it)

-- What a call of the device leaves behind. `live` counts the blocks allocated and not freed.
pub record Outcome : Type 0 where
  pub res : ℤ
  pub io : Option VirtioBlkIo
  pub vq : Virtqueue
  pub ram : Ram
  pub calls : List Call
  pub live : ℕ

-- `handle_blk_request` from the test of `vblk_io` on, and the result that its caller makes of it.
unfoldable pub outcome_of : Ram → IoResult → Option VirtioBlkIo → Outcome
outcome_of ram r (some io) = record {
  res = ok 0;
  io = some io;
  vq = r.vq;
  ram = ram;
  calls = [];
  live = r.live;
}
outcome_of ram r none =
    let (vq, ram', calls) = release_buffers r.vq r.iter ram 0 in
    record { res = eio; io = none; vq = vq; ram = ram'; calls = calls; live = r.live }

unfoldable pub handle_blk_request :
    (ℕ → Bool) → MemoryMap → VirtioBlk → (live : ℕ) → Iter → Virtqueue → Ram → Outcome
handle_blk_request can_alloc mem vblk live it vq ram =
    let r = parse can_alloc mem ram vblk vq it live in outcome_of ram r r.io

unfoldable pub dequeue_from :
    (ℕ → Bool) → MemoryMap → VirtioBlk → (live : ℕ) → Option Iter × Virtqueue × Ram → Outcome
dequeue_from can_alloc mem vblk live (none, vq, ram) = record {
  res = enoent;
  io = none;
  vq = vq;
  ram = ram;
  calls = [];
  live = live;
}
dequeue_from can_alloc mem vblk live (some it, vq, ram) =
    handle_blk_request can_alloc mem vblk live it vq ram

unfoldable pub blk_dequeue_request :
    (ℕ → Bool) → MemoryMap → VirtioBlk → (live : ℕ) → Virtqueue → Ram → Outcome
blk_dequeue_request can_alloc mem vblk live vq ram =
    if vq.is_broken
    then record { res = enxio; io = none; vq = vq; ram = ram; calls = []; live = live }
    else dequeue_from can_alloc mem vblk live (dequeue_avail vq ram)

-- The queue is the one that the request was taken from.
unfoldable pub blk_complete_request :
    (live : ℕ) → VirtioBlkIo → BlkIoStatus → Virtqueue → Ram → (Virtqueue × Ram × List Call) × ℕ
blk_complete_request live io res vq ram =
    (enqueue_used vq (write8 ram io.pstatus (status_value res)) io.head 0, live - 1)
