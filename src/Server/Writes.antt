-- ===== src/Server/Writes.antt =====
-- The loop of `handle_rw` for a write.
use libvhost_user.Base.{
  ℕ, suc, ◌+◌, ◌-◌, ◌*◌, ◌/◌, ◌≤◌, ◌<◌, ◌≡◌, ◌≢◌, ◌⊎◌, inl, inr, refl, ap, sym, ◌∙◌, some, List, [],
  ◌∷◌, ◌++◌, arith, length, length-append, All, u32_mod, ℤ, pos,
}
use libvhost_user.Ram.{Ram}
use libvhost_user.Blk.Device.{sector_size}
use libvhost_user.Blk.Request.{Iovec, BlkIoType, write, BlkIoRequest}
use libvhost_user.Blk.Gather.{sectors_of}
use libvhost_user.Server.{DiskImage, finished, died, io_failed, transfer, handle_from}
use libvhost_user.Server.Copy.{span, addresses, store, IsImage, length-span, store-append}
use libvhost_user.Server.Vectors.{
  IsWhole, append_assoc, handle_from-end, handle_from-round, handle_from-cut, is_pos,
}

module _ {F : Type 0} (image : DiskImage F) (size : F → ℕ) (byte : F → ℕ → ℕ)
    (laws : IsImage image size byte) where
  -- What a write of vectors leaves of the image.
  pub record IsStored (file : F) (ws : List Iovec) (ram : Ram) (offset : ℕ) (file' : F)
      : Type 0 where
    pub size_kept : size file' ≡ size file
    pub stored : byte file' ≡ store (byte file) (addresses ws) ram offset

  -- `pwrite` has put the vectors before `v` into the image, and for `v` does not return its length.
  pub record IsWriteCut (file : F) (ws : List Iovec) (ram : Ram) (offset : ℕ) : Type 0 where
    pub before : List Iovec
    pub v : Iovec
    pub after : List Iovec
    pub file_before : F
    pub split : ws ≡ before ++ v ∷ after
    pub stored_before : IsStored file before ram offset file_before
    pub cut :
        (image.pwrite file_before ram v.ptr v.len (offset + length (addresses before))).0
        ≢ pos v.len

  nothing-IsStored : (file : F) (ram : Ram) (offset : ℕ) → IsStored file [] ram offset file
  unfolding addresses store
  nothing-IsStored file ram offset = record { size_kept = refl; stored = refl }

  -- A vector, and then the others.
  next-IsStored :
      (file file1 file' : F) (v : Iovec) (ws : List Iovec) (ram : Ram) (offset offset' : ℕ)
      → offset' ≡ offset + v.len
      → size file1 ≡ size file
      → byte file1 ≡ store (byte file) (span v.ptr v.len) ram offset
      → IsStored file1 ws ram offset' file'
      → IsStored file (v ∷ ws) ram offset file'
  unfolding addresses
  next-IsStored file file1 file' v ws ram offset offset' e kept wrote s =
      let place : offset' ≡ offset + length (span v.ptr v.len) =
        omega (arith, e, length-span v.ptr v.len) in
      record {
        size_kept = s.size_kept ∙ kept;
        stored =
            s.stored
            ∙ ap (λ n. store (byte file1) (addresses ws) ram n) place
            ∙ ap (λ (f : ℕ → ℕ). store f (addresses ws) ram (offset + length (span v.ptr v.len)))
                wrote
            ∙ sym (store-append (byte file) (span v.ptr v.len) (addresses ws) ram offset);
      }

  cut_first :
      (file : F) (v : Iovec) (ws : List Iovec) (ram : Ram) (offset : ℕ)
      → (image.pwrite file ram v.ptr v.len offset).0 ≢ pos v.len
      → IsWriteCut file (v ∷ ws) ram offset
  unfolding addresses
  cut_first file v ws ram offset ne = record {
    before = [];
    v = v;
    after = ws;
    file_before = file;
    split = refl;
    stored_before = nothing-IsStored file ram offset;
    cut = λ e. ne (ap (λ n. (image.pwrite file ram v.ptr v.len n).0) (omega arith) ∙ e);
  }

  cut_later :
      (file file1 : F) (v : Iovec) (ws : List Iovec) (ram : Ram) (offset offset' : ℕ)
      → offset' ≡ offset + v.len
      → size file1 ≡ size file
      → byte file1 ≡ store (byte file) (span v.ptr v.len) ram offset
      → IsWriteCut file1 ws ram offset'
      → IsWriteCut file (v ∷ ws) ram offset
  unfolding addresses
  cut_later file file1 v ws ram offset offset' e kept wrote c =
      let end : offset' + length (addresses c.before)
          ≡ offset + length (span v.ptr v.len ++ addresses c.before) =
        omega (
          arith,
          e,
          length-span v.ptr v.len,
          length-append (span v.ptr v.len) (addresses c.before),
        ) in
      record {
        before = v ∷ c.before;
        v = c.v;
        after = c.after;
        file_before = c.file_before;
        split = ap (λ (t : List Iovec). v ∷ t) c.split;
        stored_before =
            next-IsStored file file1 c.file_before v c.before ram offset offset' e kept wrote
              c.stored_before;
        cut = λ k. c.cut (ap (λ n. (image.pwrite c.file_before ram c.v.ptr c.v.len n).0) end ∙ k);
      }

  write-some :
      (type : BlkIoType) (v : Iovec) (offset : ℕ) (file : F) (ram : Ram)
      → type ≡ write
      → transfer image type file ram v.ptr v.len offset
        ≡ some (
          (image.pwrite file ram v.ptr v.len offset).0,
          (image.pwrite file ram v.ptr v.len offset).1,
          ram,
        )
  unfolding transfer
  write-some type v offset file ram ty = rw ty refl

  pub handle_from-writes :
      (bio : BlkIoRequest) (ws vs : List Iovec) (sector total : ℕ) (file : F) (ram : Ram)
      → bio.type ≡ write
      → bio.vecs ≡ vs ++ ws
      → total ≡ sectors_of ws
      → All IsWhole ws
      → sector + total < u32_mod
      → (sector + total) * sector_size ≤ size file
      → ((file' : F) × (handle_from image bio (length ws) (length vs) sector total file ram
            ≡ finished file' ram)
          × IsStored file ws ram (sector * sector_size) file')
        ⊎ ((handle_from image bio (length ws) (length vs) sector total file ram ≡ died io_failed)
            × IsWriteCut file ws ram (sector * sector_size))
  handle_from-writes bio [] vs sector total file ram ty e sum all small fits = inl (
    file,
    rw sum (handle_from-end image bio (length vs) sector file ram),
    nothing-IsStored file ram (sector * sector_size),
  )
  handle_from-writes bio (v ∷ ws) vs sector total file ram ty e sum (w, all) small fits =
      let done = v.len / sector_size in
      let from = sector * sector_size in
      let whole : done * sector_size ≡ v.len = omega (arith, w.whole) in
      let (res, file1) = image.pwrite file ram v.ptr v.len from in
      let got = write-some bio.type v from file ram ty in
      elim (is_pos res v.len) [
        | inr ne ↦ inr (
          handle_from-cut image bio vs ws v sector total file file1 ram ram res e w (omega arith)
              small got ne,
          cut_first file v ws ram from ne,
        )
        | inl eq ↦
            let (kept, wrote) = laws.writes file ram v.ptr v.len from (omega arith) eq in
            let next : (sector + done) * sector_size ≡ from + v.len = omega arith in
            let place : suc (length vs) ≡ length (vs ++ v ∷ []) =
              omega (arith, length-append vs (v ∷ [])) in
            let step =
              handle_from-round image bio vs ws v sector total file file1 ram ram e w (omega arith)
                small (got ∙ ap (λ (r : ℤ). some (r, file1, ram)) eq)
              ∙ ap
                  (λ n.
                    handle_from image bio (length ws) n (sector + done) (total - done) file1 ram)
                  place in
            elim (handle_from-writes bio ws (vs ++ v ∷ []) (sector + done) (total - done) file1 ram
              ty (e ∙ append_assoc vs ws v) (omega arith) all (omega arith) (omega arith)) [
                | inl (file', finish, s) ↦ inl (
                  file',
                  step ∙ finish,
                  next-IsStored file file1 file' v ws ram from ((sector + done) * sector_size) next
                      kept wrote s,
                )
                | inr (died_of, c) ↦ inr (
                  step ∙ died_of,
                  cut_later file file1 v ws ram from ((sector + done) * sector_size) next kept wrote
                      c,
                )
              ]
      ]
