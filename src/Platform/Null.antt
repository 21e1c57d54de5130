-- ===== src/Platform/Null.antt =====
-- What the wrappers of the allocator hand to their callers.
use libvhost_user.Base.{ℕ, ◌≡◌, ◌≢◌, ◌↔◌, ap, sym, ◌∙◌, Bool, true, Option, none, some, arith}
use libvhost_user.Ram.{Ram}
use libvhost_user.Platform.{
  Allocator, vhost_verify, clear, zalloc_from, vhost_alloc, vhost_zalloc, vhost_calloc,
}

module _ {H : Type 0} (lib : Allocator H) (ndebug : Bool) (h : H) where
  -- A wrapper hands NULL to its caller just in a build with NDEBUG, where the library gives NULL.
  vhost_alloc-null_iff :
      (size : ℕ) (h' : H)
      → (vhost_alloc lib ndebug h size ≡ some (0, h'))
        ↔ (ndebug ≡ true) × (lib.malloc h size ≡ (0, h'))
  unfolding vhost_alloc vhost_verify
  vhost_alloc-null_iff size h' = ground arith

  vhost_calloc-null_iff :
      (ram ram' : Ram) (nmemb size : ℕ) (h' : H)
      → (vhost_calloc lib ndebug h ram nmemb size ≡ some (0, h', ram'))
        ↔ (ndebug ≡ true) × (lib.calloc h ram nmemb size ≡ (0, h', ram'))
  unfolding vhost_calloc vhost_verify
  vhost_calloc-null_iff ram ram' nmemb size h' = ground arith

  zalloc_from-clear :
      (ram ram' : Ram) (o : Option (ℕ × H)) (p : ℕ) (h' : H)
      → zalloc_from ram o ≡ some (p, h', ram')
      → ram' ≡ clear ram p 1
  unfolding zalloc_from
  zalloc_from-clear ram ram' none p h' e = absurd (ground arith)
  zalloc_from-clear ram ram' (some (res, h'')) p h' e =
      let at : res ≡ p = ground arith in
      let same : clear ram res 1 ≡ ram' = cc in sym same ∙ ap (λ (q : ℕ). clear ram q 1) at

  -- Of the memory that `vhost_zalloc` gives the first byte is zero, and the others are as they were.
  vhost_zalloc-first :
      (ram ram' : Ram) (size p : ℕ) (h' : H)
      → vhost_zalloc lib ndebug h ram size ≡ some (p, h', ram')
      → (ram' p ≡ 0) × ((a : ℕ) → a ≢ p → ram' a ≡ ram a)
  unfolding vhost_zalloc clear
  vhost_zalloc-first ram ram' size p h' e =
      let same = zalloc_from-clear ram ram' (vhost_alloc lib ndebug h size) p h' e in
      (
        ap (λ (m : Ram). m p) same ∙ ground arith,
        λ a ne. ap (λ (m : Ram). m a) same ∙ ground (arith, ne),
      )
