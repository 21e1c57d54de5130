-- ===== src/Server/Copy.antt =====
-- What reading and writing an image means, byte by byte.
use libvhost_user.Base.{
  ℕ, zero, suc, ◌+◌, ◌≤◌, ◌<◌, ◌≡◌, ◌⊎◌, refl, ap, ◌∙◌, List, [], ◌∷◌, ◌++◌, ◌==◌, if◌then◌else◌,
  arith, length, pos,
}
use libvhost_user.Ram.{Ram, read8, write8}
use libvhost_user.Blk.Request.{Iovec}
use libvhost_user.Server.{DiskImage}

-- The `n` addresses from one on.
unfoldable pub span : ℕ → ℕ → List ℕ
span p zero = []
span p (suc n) = p ∷ span (p + 1) n

-- The addresses of a request's data, in its order.
unfoldable pub addresses : List Iovec → List ℕ
addresses [] = []
addresses (v ∷ vs) = span v.ptr v.len ++ addresses vs

-- Memory after the bytes of a file, from an offset on, have been put at the addresses.
unfoldable pub load : Ram → List ℕ → (file : ℕ → ℕ) → (offset : ℕ) → Ram
load ram [] file offset = ram
load ram (p ∷ ps) file offset = load (write8 ram p (file offset)) ps file (offset + 1)

unfoldable pub put_byte : (ℕ → ℕ) → (offset byte : ℕ) → ℕ → ℕ
put_byte file offset byte i = if i == offset then byte else file i

-- A file after the bytes at the addresses have been put into it from an offset on.
unfoldable pub store : (file : ℕ → ℕ) → List ℕ → Ram → (offset : ℕ) → ℕ → ℕ
store file [] ram offset = file
store file (p ∷ ps) ram offset = store (put_byte file offset (read8 ram p)) ps ram (offset + 1)

-- The documented behaviour of `pread` and `pwrite`, for a range within the file: where they return its
-- length, they have moved its bytes and changed nothing else. Both may move less, or fail.
pub record IsImage {F : Type 0} (image : DiskImage F) (size : F → ℕ) (byte : F → ℕ → ℕ)
    : Type 0 where
  pub reads :
      (f : F) (ram : Ram) (ptr count offset : ℕ)
      → offset + count ≤ size f
      → (image.pread f ram ptr count offset).0 ≡ pos count
      → (image.pread f ram ptr count offset).1 ≡ load ram (span ptr count) (byte f) offset
  pub writes :
      (f : F) (ram : Ram) (ptr count offset : ℕ)
      → offset + count ≤ size f
      → (image.pwrite f ram ptr count offset).0 ≡ pos count
      → (size (image.pwrite f ram ptr count offset).1 ≡ size f)
        × (byte (image.pwrite f ram ptr count offset).1
            ≡ store (byte f) (span ptr count) ram offset)

pub length-span : (p n : ℕ) → length (span p n) ≡ n
unfolding span
length-span p zero = refl
length-span p (suc n) = ap suc (length-span (p + 1) n)

pub load-append :
    (ram : Ram) (ps qs : List ℕ) (file : ℕ → ℕ) (offset : ℕ)
    → load ram (ps ++ qs) file offset ≡ load (load ram ps file offset) qs file (offset + length ps)
unfolding load
load-append ram [] qs file offset = ap (load ram qs file) (omega arith)
load-append ram (p ∷ ps) qs file offset =
    load-append (write8 ram p (file offset)) ps qs file (offset + 1)
    ∙ ap (load (load (write8 ram p (file offset)) ps file (offset + 1)) qs file) (omega arith)

pub store-append :
    (file : ℕ → ℕ) (ps qs : List ℕ) (ram : Ram) (offset : ℕ)
    → store file (ps ++ qs) ram offset
      ≡ store (store file ps ram offset) qs ram (offset + length ps)
unfolding store
store-append file [] qs ram offset = ap (store file qs ram) (omega arith)
store-append file (p ∷ ps) qs ram offset =
    store-append (put_byte file offset (read8 ram p)) ps qs ram (offset + 1)
    ∙ ap (store (store (put_byte file offset (read8 ram p)) ps ram (offset + 1)) qs ram)
        (omega arith)

-- A write leaves all bytes of a file but those of its range.
pub store-outside :
    (file : ℕ → ℕ) (ps : List ℕ) (ram : Ram) (offset i : ℕ)
    → (i < offset) ⊎ (offset + length ps ≤ i)
    → store file ps ram offset i ≡ file i
unfolding store put_byte
store-outside file [] ram offset i h = refl
store-outside file (p ∷ ps) ram offset i h =
    let rest = store-outside (put_byte file offset (read8 ram p)) ps ram (offset + 1) i in
    ground (arith, rest)
