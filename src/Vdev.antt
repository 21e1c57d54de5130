-- ===== src/Vdev.antt =====
-- include/virtio/vdev.h: the part of a device that all device types share. Null pointers are not
-- modelled.
use libvhost_user.Base.{ℕ, ◌+◌, ◌≤◌, ◌<◌, ◌≡◌, ◌⊎◌, ltb, if◌then◌else◌, ℤ, enospc}
use libvhost_user.Base.{pos as ok}
use libvhost_user.Ram.{Ram}

-- `get_config` is the handler that fills a buffer at a host address.
pub record VirtioDev : Type 0 where
  pub supported_features : ℕ
  pub features : ℕ
  pub config_size : ℕ
  pub get_config : Ram → ℕ → Ram

unfoldable pub dev_get_config : VirtioDev → Ram → (buffer bufsize : ℕ) → ℤ × Ram
dev_get_config vdev ram buffer bufsize =
    if ltb bufsize vdev.config_size then (enospc, ram) else (ok 0, vdev.get_config ram buffer)

unfoldable pub dev_set_features : VirtioDev → ℕ → ℤ × VirtioDev
dev_set_features vdev features = (ok 0, record vdev { features = features })

-- The handler of the device fills no more than the size of its configuration.
pub record IsFiller (vdev : VirtioDev) : Type 0 where
  pub beside :
      (ram : Ram) (buffer a : ℕ)
      → (a < buffer) ⊎ (buffer + vdev.config_size ≤ a)
      → vdev.get_config ram buffer a ≡ ram a
