-- ===== src/Server/Vectors.antt =====
-- A round of the loop of `handle_rw`.
use libvhost_user.Base.{
  ℕ, suc, ◌+◌, ◌-◌, ◌*◌, ◌/◌, ◌%◌, ◌≤◌, ◌<◌, ◌≡◌, refl, ap, ◌∙◌, false, some, List, [], ◌∷◌, ◌++◌,
  ◌==◌, arith, length, get_elem?, All, u32_mod, u64_mod, add64, pos, ==ℤ-self, ◌≢◌, ◌⊎◌, inl, inr,
  Bool-cases, ==ℤ→eq, ℤ, ◌==ℤ◌, true,
}
use libvhost_user.Ram.{Ram}
use libvhost_user.Blk.Device.{sector_size}
use libvhost_user.Blk.Request.{Iovec, BlkIoType, BlkIoRequest}
use libvhost_user.Blk.Gather.{sectors_of}
use libvhost_user.Server.{
  DiskImage, BioResult, finished, transfer, check_result, vec_sectors, handle_vec, handle_from,
  died, io_failed,
}

-- A vector of whole sectors, one at least, shorter than 4 GiB.
pub record IsWhole (v : Iovec) : Type 0 where
  pub nonempty : 0 < v.len
  pub whole : v.len % sector_size ≡ 0
  pub len_fits : v.len < u32_mod

-- A request as `blk_rw` builds them, for an image of `size` bytes.
pub record IsRequest (size : ℕ) (bio : BlkIoRequest) : Type 0 where
  pub counted : bio.nvecs ≡ length bio.vecs
  pub summed : bio.total_sectors ≡ sectors_of bio.vecs
  pub wholes : All IsWhole bio.vecs
  pub sectors_fit : bio.sector + bio.total_sectors < u32_mod
  pub in_image : (bio.sector + bio.total_sectors) * sector_size ≤ size

get_elem?-append : (vs ws : List Iovec) (w : Iovec) → get_elem? (vs ++ w ∷ ws) (length vs) ≡ some w
get_elem?-append [] ws w = refl
get_elem?-append (v ∷ vs) ws w = get_elem?-append vs ws w

pub append_assoc : (vs ws : List Iovec) (w : Iovec) → vs ++ w ∷ ws ≡ (vs ++ w ∷ []) ++ ws
append_assoc [] ws w = refl
append_assoc (v ∷ vs) ws w = ap (λ (t : List Iovec). v ∷ t) (append_assoc vs ws w)

-- A whole vector of a request that has at least as many sectors left is used up.
vec_sectors-IsWhole :
    (v : Iovec) (total : ℕ)
    → IsWhole v
    → v.len / sector_size ≤ total
    → vec_sectors v total ≡ v.len / sector_size
unfolding vec_sectors
vec_sectors-IsWhole v total w h = ground (arith, w.len_fits)

vec_count-IsWhole : (v : Iovec) → IsWhole v → v.len / sector_size * sector_size % u32_mod ≡ v.len
vec_count-IsWhole v w = omega (arith, w.whole, w.len_fits)

-- Whether a result is a length.
pub is_pos : (z : ℤ) (n : ℕ) → (z ≡ pos n) ⊎ (z ≢ pos n)
is_pos z n = elim (Bool-cases (z ==ℤ pos n)) [
  | inl e ↦ inl (==ℤ→eq z (pos n) e)
  | inr e ↦ inr (λ k. absurd (
      let self : (z ==ℤ pos n) ≡ true = ap (λ (x : ℤ). x ==ℤ pos n) k ∙ ==ℤ-self (pos n) in
      ground arith))
]

not_pos : (z : ℤ) (n : ℕ) → z ≢ pos n → (z ==ℤ pos n) ≡ false
not_pos z n h = elim (Bool-cases (z ==ℤ pos n)) [
  | inl e ↦ absurd (h (==ℤ→eq z (pos n) e))
  | inr e ↦ e
]

module _ {F : Type 0} (image : DiskImage F) where
  -- One vector, whose transfer is whole.
  handle_vec-IsWhole :
      (type : BlkIoType) (sector total : ℕ) (rest : ℕ → F → Ram → BioResult F) (v : Iovec)
      (file file' : F) (ram ram' : Ram)
      → IsWhole v
      → v.len / sector_size ≤ total
      → sector < u32_mod
      → transfer image type file ram v.ptr v.len (sector * sector_size)
        ≡ some (pos v.len, file', ram')
      → handle_vec image type sector total rest (some v) file ram
        ≡ rest (v.len / sector_size) file' ram'
  unfolding handle_vec check_result
  handle_vec-IsWhole type sector total rest v file file' ram ram' w h small e =
      let offset : sector * sector_size % u64_mod ≡ sector * sector_size = omega arith in
      let none_left : v.len - v.len ≡ 0 = omega arith in
      rw
        (
          vec_sectors-IsWhole v total w h,
          vec_count-IsWhole v w,
          offset,
          e,
          ==ℤ-self (pos v.len),
          none_left,
        )
        refl

  -- The loop without vectors to go.
  pub handle_from-end :
      (bio : BlkIoRequest) (idx sector : ℕ) (file : F) (ram : Ram)
      → handle_from image bio 0 idx sector 0 file ram ≡ finished file ram
  unfolding handle_from
  handle_from-end bio idx sector file ram = refl

  -- A round for the vector `v`, after `vs`.
  pub handle_from-round :
      (bio : BlkIoRequest) (vs ws : List Iovec) (v : Iovec) (sector total : ℕ) (file file' : F)
      (ram ram' : Ram)
      → bio.vecs ≡ vs ++ v ∷ ws
      → IsWhole v
      → v.len / sector_size ≤ total
      → sector + total < u32_mod
      → transfer image bio.type file ram v.ptr v.len (sector * sector_size)
        ≡ some (pos v.len, file', ram')
      → handle_from image bio (suc (length ws)) (length vs) sector total file ram
        ≡ handle_from image bio
            (length ws)
            (suc (length vs))
            (sector + v.len / sector_size)
            (total - v.len / sector_size)
            file'
            ram'
  unfolding handle_from
  handle_from-round bio vs ws v sector total file file' ram ram' e w h small t =
      let got : get_elem? bio.vecs (length vs) ≡ some v = rw e (get_elem?-append vs ws v) in
      let more : (total == 0) ≡ false = ground (arith, w.whole, w.nonempty) in
      let next : add64 sector (v.len / sector_size) ≡ sector + v.len / sector_size = omega arith in
      rw (more, got)
        (handle_vec-IsWhole bio.type sector total
            (λ done file' ram'.
              handle_from image bio (length ws) (suc (length vs)) (add64 sector done) (total - done)
                file' ram')
            v file file' ram ram' w h (omega arith) t
          ∙ ap
              (λ n.
                handle_from image bio (length ws) (suc (length vs)) n (total - v.len / sector_size)
                  file' ram')
              next)

  -- A round whose transfer does not return the length of the vector.
  pub handle_from-cut :
      (bio : BlkIoRequest) (vs ws : List Iovec) (v : Iovec) (sector total : ℕ) (file file' : F)
      (ram ram' : Ram) (res : ℤ)
      → bio.vecs ≡ vs ++ v ∷ ws
      → IsWhole v
      → v.len / sector_size ≤ total
      → sector + total < u32_mod
      → transfer image bio.type file ram v.ptr v.len (sector * sector_size)
        ≡ some (res, file', ram')
      → res ≢ pos v.len
      → handle_from image bio (suc (length ws)) (length vs) sector total file ram ≡ died io_failed
  unfolding handle_from handle_vec check_result
  handle_from-cut bio vs ws v sector total file file' ram ram' res e w h small t ne =
      let got : get_elem? bio.vecs (length vs) ≡ some v = rw e (get_elem?-append vs ws v) in
      let more : (total == 0) ≡ false = ground (arith, w.whole, w.nonempty) in
      let offset : sector * sector_size % u64_mod ≡ sector * sector_size = omega arith in
      rw
        (
          more,
          got,
          vec_sectors-IsWhole v total w h,
          vec_count-IsWhole v w,
          offset,
          t,
          not_pos res v.len ne,
        )
        refl
