-- ===== src/Server/Transfer.antt =====
-- `handle_rw` moves exactly the data of an accepted request, or ends the process.
use libvhost_user.Base.{ℕ, ◌*◌, ◌≡◌, ◌⊎◌, inl, inr, refl, ap, ◌∙◌, []}
use libvhost_user.Ram.{Ram}
use libvhost_user.Blk.Device.{sector_size}
use libvhost_user.Blk.Request.{read, write, BlkIoRequest}
use libvhost_user.Server.{DiskImage, finished, died, io_failed, handle_from, handle_rw}
use libvhost_user.Server.Copy.{addresses, load, IsImage}
use libvhost_user.Server.Vectors.{IsRequest}
use libvhost_user.Server.Reads.{IsReadCut, handle_from-reads}
use libvhost_user.Server.Writes.{IsStored, IsWriteCut, handle_from-writes}

module _ {F : Type 0} (image : DiskImage F) (size : F → ℕ) (byte : F → ℕ → ℕ)
    (laws : IsImage image size byte) where
  pub handle_rw-transfers :
      (bio : BlkIoRequest) (file : F) (ram : Ram)
      → IsRequest (size file) bio
      → (bio.type ≡ read
          → (handle_rw image bio file ram
              ≡ finished file
                  (load ram (addresses bio.vecs) (byte file) (bio.sector * sector_size)))
            ⊎ ((handle_rw image bio file ram ≡ died io_failed)
                × IsReadCut image size byte laws file bio.vecs ram (bio.sector * sector_size)))
        × (bio.type ≡ write
            → ((file' : F) × (handle_rw image bio file ram ≡ finished file' ram)
                × IsStored image size byte laws file bio.vecs ram (bio.sector * sector_size) file')
              ⊎ ((handle_rw image bio file ram ≡ died io_failed)
                  × IsWriteCut image size byte laws file bio.vecs ram (bio.sector * sector_size)))
  unfolding handle_rw
  handle_rw-transfers bio file ram r =
      let start =
        ap (λ n. handle_from image bio n 0 bio.sector bio.total_sectors file ram) r.counted in
      (
        λ ty.
            elim (handle_from-reads image size byte laws bio bio.vecs [] bio.sector
              bio.total_sectors file ram ty refl r.summed r.wholes r.sectors_fit r.in_image) [
                | inl e ↦ inl (start ∙ e)
                | inr (e, c) ↦ inr (start ∙ e, c)
              ],
        λ ty.
            elim (handle_from-writes image size byte laws bio bio.vecs [] bio.sector
              bio.total_sectors file ram ty refl r.summed r.wholes r.sectors_fit r.in_image) [
                | inl (file', e, s) ↦ inl (file', start ∙ e, s)
                | inr (e, c) ↦ inr (start ∙ e, c)
              ],
      )
