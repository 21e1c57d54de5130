-- ===== src/Server/Fixture.antt =====
-- A disk image for the tests.
use libvhost_user.Base.{ℕ, ◌+◌, ◌-◌, ltb, if◌then◌else◌, min, pos}
use libvhost_user.Server.{DiskImage}
use libvhost_user.Server.Copy.{span, load, store}

-- A file: reading ends at its end, and writing moves it.
pub record File : Type 0 where
  pub size : ℕ
  pub byte : ℕ → ℕ

abbrev pub file_image : DiskImage File
file_image = record {
  pread = λ f ram ptr count offset.
      let n = min count (f.size - offset) in (pos n, load ram (span ptr n) f.byte offset);
  pwrite = λ f ram ptr count offset. (
    pos count,
    record {
      size = if ltb f.size (offset + count) then offset + count else f.size;
      byte = store f.byte (span ptr count) ram offset;
    },
  );
}

-- Each byte of the image is 7 more than its place.
abbrev pub eight_sectors : File
eight_sectors = record { size = 4096; byte = λ i. i + 7 }
