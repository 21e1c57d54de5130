-- ===== src/Platform.antt =====
-- include/platform.h: VHOST_VERIFY, container_of and the wrappers of the allocator.
use libvhost_user.Base.{
  ℕ, ◌+◌, Bool, not, ◌&&◌, ◌||◌, Option, none, some, ◌==◌, ltb, leb, if◌then◌else◌, sub64,
}
use libvhost_user.Ram.{Ram}
pub mod Null

-- VHOST_VERIFY is `assert`: it ends the process where the predicate is false, unless the build
-- defines NDEBUG, which Makefile.common does unless CONFIG_DEBUG is set.
abbrev pub verify_fails : (ndebug pred : Bool) → Bool
verify_fails ndebug pred = not ndebug && not pred

-- `none` where the process ends.
unfoldable pub vhost_verify {ℓ} : {A : Type ℓ} → (ndebug pred : Bool) → A → Option A
vhost_verify ndebug pred rest = if verify_fails ndebug pred then none else some rest

-- The address of what has the member at `ptr`, at that offset.
unfoldable pub container_of : (ptr offset : ℕ) → ℕ
container_of ptr offset = sub64 ptr offset

-- The allocator of the C library, with `H` for its state: the pointer that a call gives, 0 for NULL,
-- and what it leaves.
pub record Allocator (H : Type 0) : Type 0 where
  pub malloc : H → (size : ℕ) → ℕ × H
  pub calloc : H → Ram → (nmemb size : ℕ) → ℕ × H × Ram
  pub realloc : H → Ram → (ptr new_size : ℕ) → ℕ × H × Ram
  pub free : H → (ptr : ℕ) → H

-- NULL
abbrev pub is_null : ℕ → Bool
is_null ptr = ptr == 0

-- `sizeof(*res)` of a `void*`, in the dialect of the compiler
abbrev pub sizeof_void : ℕ
sizeof_void = 1

-- `memset` of zeros
unfoldable pub clear : Ram → (ptr size : ℕ) → Ram
clear ram ptr size a = if leb ptr a && ltb a (ptr + size) then 0 else ram a

-- The `memset` of `vhost_zalloc`
module _ {H : Type 0} where
  unfoldable pub zalloc_from : Ram → Option (ℕ × H) → Option (ℕ × H × Ram)
  zalloc_from ram none = none
  zalloc_from ram (some (res, h)) = some (res, h, clear ram res sizeof_void)

module _ {H : Type 0} (lib : Allocator H) (ndebug : Bool) where
  unfoldable pub vhost_alloc : H → (size : ℕ) → Option (ℕ × H)
  vhost_alloc h size =
      let (res, h') = lib.malloc h size in vhost_verify ndebug (not (is_null res)) (res, h')

  unfoldable pub vhost_zalloc : H → Ram → (size : ℕ) → Option (ℕ × H × Ram)
  vhost_zalloc h ram size = zalloc_from ram (vhost_alloc h size)

  unfoldable pub vhost_calloc : H → Ram → (nmemb size : ℕ) → Option (ℕ × H × Ram)
  vhost_calloc h ram nmemb size =
      let (res, h', ram') = lib.calloc h ram nmemb size in
      vhost_verify ndebug (not (is_null res)) (res, h', ram')

  unfoldable pub vhost_realloc : H → Ram → (ptr new_size : ℕ) → Option (ℕ × H × Ram)
  vhost_realloc h ram ptr new_size =
      let (res, h', ram') = lib.realloc h ram ptr new_size in
      vhost_verify ndebug (not (is_null res)) (res, h', ram')

  unfoldable pub vhost_free : H → (p : ℕ) → H
  vhost_free h p = if not (is_null p) then lib.free h p else h
