-- ===== src/Server/Reads.antt =====
-- The loop of `handle_rw` for a read.
use libvhost_user.Base.{
  ℕ, suc, ◌+◌, ◌-◌, ◌*◌, ◌/◌, ◌≤◌, ◌<◌, ◌≡◌, ◌≢◌, ◌⊎◌, inl, inr, refl, ap, sym, ◌∙◌, some, List, [],
  ◌∷◌, ◌++◌, arith, length, length-append, All, u32_mod, ℤ, pos,
}
use libvhost_user.Ram.{Ram}
use libvhost_user.Blk.Device.{sector_size}
use libvhost_user.Blk.Request.{Iovec, BlkIoType, read, BlkIoRequest}
use libvhost_user.Blk.Gather.{sectors_of}
use libvhost_user.Server.{DiskImage, finished, died, io_failed, transfer, handle_from}
use libvhost_user.Server.Copy.{span, addresses, load, IsImage, length-span, load-append}
use libvhost_user.Server.Vectors.{
  IsWhole, append_assoc, handle_from-end, handle_from-round, handle_from-cut, is_pos,
}

module _ {F : Type 0} (image : DiskImage F) (size : F → ℕ) (byte : F → ℕ → ℕ)
    (laws : IsImage image size byte) where
  -- `pread` is whole for the vectors before `v`, and for `v` does not return its length.
  pub record IsReadCut (file : F) (ws : List Iovec) (ram : Ram) (offset : ℕ) : Type 0 where
    pub before : List Iovec
    pub v : Iovec
    pub after : List Iovec
    pub split : ws ≡ before ++ v ∷ after
    pub cut :
        (image.pread file
          (load ram (addresses before) (byte file) offset)
          v.ptr
          v.len
          (offset + length (addresses before))).0
        ≢ pos v.len

  cut_first :
      (file : F) (v : Iovec) (ws : List Iovec) (ram : Ram) (offset : ℕ)
      → (image.pread file ram v.ptr v.len offset).0 ≢ pos v.len
      → IsReadCut file (v ∷ ws) ram offset
  unfolding load addresses
  cut_first file v ws ram offset ne = record {
    before = [];
    v = v;
    after = ws;
    split = refl;
    cut = λ e. ne (ap (λ n. (image.pread file ram v.ptr v.len n).0) (omega arith) ∙ e);
  }

  cut_later :
      (file : F) (v : Iovec) (ws : List Iovec) (ram : Ram) (offset offset' : ℕ)
      → offset' ≡ offset + v.len
      → IsReadCut file ws (load ram (span v.ptr v.len) (byte file) offset) offset'
      → IsReadCut file (v ∷ ws) ram offset
  unfolding addresses
  cut_later file v ws ram offset offset' e c =
      let n = length-span v.ptr v.len in
      let joined = load-append ram (span v.ptr v.len) (addresses c.before) (byte file) offset in
      let place : offset + length (span v.ptr v.len) ≡ offset' = omega (arith, n, e) in
      let end : offset + length (span v.ptr v.len ++ addresses c.before)
          ≡ offset' + length (addresses c.before) =
        omega (arith, n, e, length-append (span v.ptr v.len) (addresses c.before)) in
      record {
        before = v ∷ c.before;
        v = c.v;
        after = c.after;
        split = ap (λ (t : List Iovec). v ∷ t) c.split;
        cut = λ k. c.cut (
            sym (
              ap
                (λ (m : Ram).
                  (image.pread file m c.v.ptr c.v.len
                    (offset + length (span v.ptr v.len ++ addresses c.before))).0)
                (joined
                  ∙ ap
                      (load (load ram (span v.ptr v.len) (byte file) offset) (addresses c.before)
                        (byte file))
                      place)
              ∙ ap
                  (λ n.
                    (image.pread file
                      (load (load ram (span v.ptr v.len) (byte file) offset) (addresses c.before)
                        (byte file) offset')
                      c.v.ptr c.v.len n).0)
                  end)
            ∙ k);
      }

  -- The transfer of one vector, when `pread` returns its length.
  read-IsWhole :
      (type : BlkIoType) (v : Iovec) (offset : ℕ) (file : F) (ram : Ram)
      → type ≡ read
      → offset + v.len ≤ size file
      → (image.pread file ram v.ptr v.len offset).0 ≡ pos v.len
      → transfer image type file ram v.ptr v.len offset
        ≡ some (pos v.len, file, load ram (span v.ptr v.len) (byte file) offset)
  unfolding transfer
  read-IsWhole type v offset file ram ty h whole = rw ty (
      ap (λ (r : ℤ). some (r, file, (image.pread file ram v.ptr v.len offset).1)) whole
      ∙ ap (λ (m : Ram). some (pos v.len, file, m))
          (laws.reads file ram v.ptr v.len offset h whole))

  read-some :
      (type : BlkIoType) (v : Iovec) (offset : ℕ) (file : F) (ram : Ram)
      → type ≡ read
      → transfer image type file ram v.ptr v.len offset
        ≡ some (
          (image.pread file ram v.ptr v.len offset).0,
          file,
          (image.pread file ram v.ptr v.len offset).1,
        )
  unfolding transfer
  read-some type v offset file ram ty = rw ty refl

  pub handle_from-reads :
      (bio : BlkIoRequest) (ws vs : List Iovec) (sector total : ℕ) (file : F) (ram : Ram)
      → bio.type ≡ read
      → bio.vecs ≡ vs ++ ws
      → total ≡ sectors_of ws
      → All IsWhole ws
      → sector + total < u32_mod
      → (sector + total) * sector_size ≤ size file
      → (handle_from image bio (length ws) (length vs) sector total file ram
          ≡ finished file (load ram (addresses ws) (byte file) (sector * sector_size)))
        ⊎ ((handle_from image bio (length ws) (length vs) sector total file ram ≡ died io_failed)
            × IsReadCut file ws ram (sector * sector_size))
  unfolding addresses
  handle_from-reads bio [] vs sector total file ram ty e sum all small fits =
      inl (rw sum (unfold load in handle_from-end image bio (length vs) sector file ram))
  handle_from-reads bio (v ∷ ws) vs sector total file ram ty e sum (w, all) small fits =
      let done = v.len / sector_size in
      let from = sector * sector_size in
      let whole : done * sector_size ≡ v.len = omega (arith, w.whole) in
      elim (is_pos (image.pread file ram v.ptr v.len from).0 v.len) [
        | inr ne ↦ inr (
          handle_from-cut image bio vs ws v sector total file file ram
              (image.pread file ram v.ptr v.len from).1 (image.pread file ram v.ptr v.len from).0 e
              w (omega arith) small (read-some bio.type v from file ram ty) ne,
          cut_first file v ws ram from ne,
        )
        | inl eq ↦
            let ram' = load ram (span v.ptr v.len) (byte file) from in
            let moved = read-IsWhole bio.type v from file ram ty (omega arith) eq in
            let place : suc (length vs) ≡ length (vs ++ v ∷ []) =
              omega (arith, length-append vs (v ∷ [])) in
            let offset : (sector + done) * sector_size ≡ from + length (span v.ptr v.len) =
              omega (arith, length-span v.ptr v.len) in
            let step =
              handle_from-round image bio vs ws v sector total file file ram ram' e w (omega arith)
                small moved
              ∙ ap
                  (λ n.
                    handle_from image bio (length ws) n (sector + done) (total - done) file ram')
                  place in
            elim (handle_from-reads bio ws (vs ++ v ∷ []) (sector + done) (total - done) file ram'
              ty (e ∙ append_assoc vs ws v) (omega arith) all (omega arith) (omega arith)) [
                | inl finish ↦ inl (
                    step
                    ∙ finish
                    ∙ ap (λ n. finished file (load ram' (addresses ws) (byte file) n)) offset
                    ∙ ap (finished file)
                        (sym (load-append ram (span v.ptr v.len) (addresses ws) (byte file) from)))
                | inr (died_of, c) ↦ inr (
                  step ∙ died_of,
                  cut_later file v ws ram from ((sector + done) * sector_size) (omega arith) c,
                )
              ]
      ]
