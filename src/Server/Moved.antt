-- ===== src/Server/Moved.antt =====
-- What serving a request does to the image and the memory.
use libvhost_user.Base.{
  ℕ, ◌+◌, ◌*◌, ◌^◌, ◌≤◌, ◌≡◌, ◌⊎◌, refl, ap, ◌∙◌, Bool, true, false, some, List, [], ◌∷◌, ◌==◌,
  if◌then◌else◌, arith, inl, inr, get_elem?, All, u32_mod,
}
use libvhost_user.Memory.{MemoryMap}
use libvhost_user.Ram.{Ram}
use libvhost_user.Blk.Device.{VirtioBlk, sector_size}
use libvhost_user.Blk.Request.{Iovec, BlkIoType, read, write, get_id, BlkReq, VirtioBlkIo, t_in}
use libvhost_user.Blk.Gather.{IsVec}
use libvhost_user.Blk.Accept.{IsAccepted}
use libvhost_user.Blk.Parse.{IsTaken, accepted, identity}
use libvhost_user.Server.{
  DiskImage, BioResult, finished, handle_rw, put_id, snprintf, server_id, serve_type, died,
  io_failed,
}
use libvhost_user.Server.Copy.{addresses, load, IsImage}
use libvhost_user.Server.Vectors.{IsWhole, IsRequest}
use libvhost_user.Server.Transfer.{handle_rw-transfers}
use libvhost_user.Server.Reads.{IsReadCut}
use libvhost_user.Server.Writes.{IsStored, IsWriteCut}

IsVec-IsWhole :
    (mem : MemoryMap) (is_read : Bool) (vs : List Iovec)
    → All (IsVec mem is_read) vs
    → All IsWhole vs
IsVec-IsWhole mem is_read [] all = tt
IsVec-IsWhole mem is_read (v ∷ vs) (a, all) = (
  record { nonempty = a.nonempty; whole = a.whole; len_fits = a.len_fits },
  IsVec-IsWhole mem is_read vs all,
)

-- A request that the device accepts fits an image that is as large as the device.
accepted-IsRequest :
    (mem : MemoryMap) (vblk : VirtioBlk) (hdr : BlkReq) (io : VirtioBlkIo) (size : ℕ)
    → vblk.total_sectors + 2 ^ 23 ≤ u32_mod
    → vblk.total_sectors * sector_size ≤ size
    → IsAccepted mem vblk hdr io
    → IsRequest size io.bio
accepted-IsRequest mem vblk hdr io size small large a = record {
  counted = a.counted;
  summed = a.summed;
  wholes = IsVec-IsWhole mem (hdr.type == t_in) io.bio.vecs a.vecs_ok;
  sectors_fit = omega (arith, a.in_capacity);
  in_image = omega (arith, a.in_capacity);
}

read_or_write :
    (b : Bool) (t : BlkIoType) → t ≡ (if b then read else write) → (t ≡ read) ⊎ (t ≡ write)
read_or_write true t e = inl e
read_or_write false t e = inr e

module _ {F : Type 0} (image : DiskImage F) (size : F → ℕ) (byte : F → ℕ → ℕ)
    (laws : IsImage image size byte) where
  -- What serving a request does to the image and the memory.
  pub data IsMoved (io : VirtioBlkIo) (file : F) (ram : Ram) (file' : F) (ram' : Ram) : Type 0 where
    loaded :
        io.bio.type ≡ read
        → file' ≡ file
        → ram' ≡ load ram (addresses io.bio.vecs) (byte file) (io.bio.sector * sector_size)
        → IsMoved io file ram file' ram'
    stored :
        io.bio.type ≡ write
        → ram' ≡ ram
        → IsStored image size byte laws file io.bio.vecs ram (io.bio.sector * sector_size) file'
        → IsMoved io file ram file' ram'
    told :
        (v : Iovec)
        → io.bio.type ≡ get_id
        → io.bio.vecs ≡ v ∷ []
        → file' ≡ file
        → ram' ≡ snprintf ram v.ptr v.len server_id
        → IsMoved io file ram file' ram'

  -- `pread` or `pwrite` does not return the length of a vector of the request.
  pub data IsCut (io : VirtioBlkIo) (file : F) (ram : Ram) : Type 0 where
    read_cut :
        io.bio.type ≡ read
        → IsReadCut image size byte laws file io.bio.vecs ram (io.bio.sector * sector_size)
        → IsCut io file ram
    write_cut :
        io.bio.type ≡ write
        → IsWriteCut image size byte laws file io.bio.vecs ram (io.bio.sector * sector_size)
        → IsCut io file ram

  abbrev pub IsFinished : VirtioBlkIo → F → Ram → BioResult F → Type 0
  IsFinished io file ram h =
      ((file' : F) × (ram' : Ram) × (h ≡ finished file' ram') × IsMoved io file ram file' ram')
      ⊎ ((h ≡ died io_failed) × IsCut io file ram)

  pub serve_type-finishes :
      (mem : MemoryMap) (vblk : VirtioBlk) (io : VirtioBlkIo) (file : F) (ram : Ram)
      → vblk.total_sectors + 2 ^ 23 ≤ u32_mod
      → vblk.total_sectors * sector_size ≤ size file
      → IsTaken mem vblk io
      → IsFinished io file ram (serve_type image io.bio.type io.bio file ram)
  unfolding serve_type
  serve_type-finishes mem vblk io file ram small large (accepted hdr a) =
      let (reads, writes) =
        handle_rw-transfers image size byte laws io.bio file ram
          (accepted-IsRequest mem vblk hdr io (size file) small large a) in
      elim (read_or_write (hdr.type == t_in) io.bio.type a.type_kept) [
        | inl t ↦
            let as_read : serve_type image io.bio.type io.bio file ram
                ≡ handle_rw image io.bio file ram =
              ap (λ (x : BlkIoType). serve_type image x io.bio file ram) t in
            elim (reads t) [
              | inl e ↦ inl (
                file,
                load ram (addresses io.bio.vecs) (byte file) (io.bio.sector * sector_size),
                as_read ∙ e,
                loaded t refl refl,
              )
              | inr (e, c) ↦ inr (as_read ∙ e, read_cut t c)
            ]
        | inr t ↦
            let as_write : serve_type image io.bio.type io.bio file ram
                ≡ handle_rw image io.bio file ram =
              ap (λ (x : BlkIoType). serve_type image x io.bio file ram) t in
            elim (writes t) [
              | inl (file', e, s) ↦ inl (file', ram, as_write ∙ e, stored t refl s)
              | inr (e, c) ↦ inr (as_write ∙ e, write_cut t c)
            ]
      ]
  serve_type-finishes mem vblk io file ram small large (identity g) =
      let as_id : serve_type image io.bio.type io.bio file ram
          ≡ put_id file ram (get_elem? io.bio.vecs 0) =
        ap (λ (x : BlkIoType). serve_type image x io.bio file ram) g.is_get_id in
      let first : get_elem? io.bio.vecs 0 ≡ some g.vec =
        ap (λ (vs : List Iovec). get_elem? vs 0) g.one_vec in
      inl (
        file,
        snprintf ram g.vec.ptr g.vec.len server_id,
        as_id ∙ ap (put_id file ram) first ∙ (unfold put_id in refl),
        told g.vec g.is_get_id g.one_vec refl refl,
      )
