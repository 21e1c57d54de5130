-- ===== src/Vhost/Config.antt =====
-- GET_CONFIG of a block device, from the message to the reply.
use libvhost_user.Base.{
  ℕ, ◌+◌, ◌-◌, ◌^◌, ◌≤◌, ◌<◌, ◌≡◌, ◌⊎◌, refl, ap, ◌∙◌, Bool, true, none, some, [], ltb, ◌||◌, ◌&&◌,
  not, ℤ, arith, inl, inr, Bool-cases, is_neg, enospc, minus_one,
}
use libvhost_user.Base.{pos as ok}
use libvhost_user.Ram.{Ram, read32, read64}
use libvhost_user.Vdev.{VirtioDev, dev_get_config}
use libvhost_user.Blk.Device.{VirtioBlk, blk_init, sizeof_config, offset_blk_size}
use libvhost_user.Blk.Init.{dev_get_config-reads}
use libvhost_user.Vhost.Protocol.{
  Message, max_config_size, get_config_offset, get_config_size, sizeof_config_header, get_config_id,
}
use libvhost_user.Vhost.Device.{VhostDev}
use libvhost_user.Vhost.MemTable.{Mmap}
use libvhost_user.Vhost.Handlers.{Answer, answer, get_config}
use libvhost_user.Vhost.Dispatch.{
  call_handler, message_assumes_reply, reset_after, send_reply, finish_message, finish_result,
  handle_message,
}

-- The size that the message names leaves room for the whole configuration behind the offset.
pub record IsRoomy (msg : Message) : Type 0 where
  pub header : sizeof_config_header ≤ msg.size
  pub room : get_config_offset msg + sizeof_config ≤ get_config_size msg
  pub bounded : get_config_size msg ≤ max_config_size

-- The device is that disk, initialised, with some features negotiated.
pub record IsDisk (vblk : VirtioBlk) (vdev : VirtioDev) : Type 0 where
  pub initialised : (blk_init vblk).0 ≡ ok 0
  pub features : ℕ
  pub is_disk : vdev ≡ record (blk_init vblk).1.vdev { features = features }

-- The message with the configuration of the disk at the offset.
pub record IsTold (vblk : VirtioBlk) (msg m : Message) : Type 0 where
  pub request_kept : m.request ≡ msg.request
  pub size_kept : m.size ≡ msg.size
  pub capacity :
      read64 m.payload (sizeof_config_header + get_config_offset msg) ≡ vblk.total_sectors
  pub block :
      read32 m.payload (sizeof_config_header + get_config_offset msg + offset_blk_size)
      ≡ vblk.block_size

IsRoomy-cases : (msg : Message) → IsRoomy msg ⊎ (¬ IsRoomy msg)
IsRoomy-cases msg =
    elim (Bool-cases (
      not (ltb msg.size sizeof_config_header)
      && not (ltb (get_config_size msg) (get_config_offset msg + sizeof_config))
      && not (ltb max_config_size (get_config_size msg)))) [
        | inl t ↦ inl (record {
          header = ground (arith, t);
          room = ground (arith, t);
          bounded = ground (arith, t);
        })
        | inr t ↦ inr (λ r. ground (arith, t, r.header, r.room, r.bounded))
      ]

dev_get_config-features :
    (vdev : VirtioDev) (f : ℕ) (ram : Ram) (buffer bufsize : ℕ)
    → dev_get_config (record vdev { features = f }) ram buffer bufsize
      ≡ dev_get_config vdev ram buffer bufsize
unfolding dev_get_config
dev_get_config-features vdev f ram buffer bufsize = refl

module _ (vblk : VirtioBlk) (dev : VhostDev) (msg : Message) (disk : IsDisk vblk dev.vdev)
    (capacity_fits : vblk.total_sectors < 2 ^ 64) (block_fits : vblk.block_size < 2 ^ 32) where
  abbrev buffer : ℕ
  buffer = sizeof_config_header + get_config_offset msg

  abbrev space : ℕ
  space = get_config_size msg - get_config_offset msg

  abbrev copied : ℤ × Ram
  copied = dev_get_config (blk_init vblk).1.vdev msg.payload buffer space

  dev_get_config-copied : dev_get_config dev.vdev msg.payload buffer space ≡ copied
  dev_get_config-copied =
      ap (λ (v : VirtioDev). dev_get_config v msg.payload buffer space) disk.is_disk
      ∙ dev_get_config-features (blk_init vblk).1.vdev disk.features msg.payload buffer space

  -- What the device answers, in either case.
  get_config-roomy :
      IsRoomy msg
      → (get_config dev msg ≡ answer (ok 0) dev (record msg { payload = copied.1 }))
        × IsTold vblk msg (record msg { payload = copied.1 })
  unfolding get_config
  get_config-roomy r =
      let (told, refused) =
        dev_get_config-reads vblk msg.payload buffer space disk.initialised capacity_fits
          block_fits in
      let (res, capacity, block) = told (omega (arith, r.room)) in
      (
        ground (arith, r.header, r.room, r.bounded, dev_get_config-copied, res),
        record { request_kept = refl; size_kept = refl; capacity = capacity; block = block },
      )

  get_config-narrow :
      (¬ IsRoomy msg) → (res : ℤ) × (is_neg res ≡ true) × (get_config dev msg ≡ answer res dev msg)
  unfolding get_config
  get_config-narrow n =
      let (told, refused) =
        dev_get_config-reads vblk msg.payload buffer space disk.initialised capacity_fits
          block_fits in
      elim (Bool-cases (ltb msg.size sizeof_config_header)) [
        | inl t ↦ (minus_one, refl, rw t refl)
        | inr t ↦
            elim (Bool-cases (
              ltb (get_config_size msg) (get_config_offset msg)
              || ltb max_config_size (get_config_size msg))) [
                | inl u ↦ (minus_one, refl, rw (t, u) refl)
                | inr u ↦
                    let header : sizeof_config_header ≤ msg.size = ground (arith, t) in
                    let bounded : get_config_size msg ≤ max_config_size = ground (arith, u) in
                    let short : space < sizeof_config =
                      elim (Bool-cases (ltb space sizeof_config)) [
                        | inl x ↦ ground (arith, x)
                        | inr x ↦ absurd (
                            n (record {
                              header = header;
                              room = ground (arith, u, x);
                              bounded = bounded;
                            }))
                      ] in
                    (
                      enospc,
                      refl,
                      rw (t, u)
                          (ap (λ (c : ℤ × Ram). answer c.0 dev (record msg { payload = c.1 }))
                            (dev_get_config-copied ∙ refused short)),
                    )
              ]
      ]

  module _ (mmap : Mmap) (can_send : Message → Bool) (fds : ℕ → ℤ)
      (asked : msg.request ≡ get_config_id) where
    handle_message-answer :
        (a : Answer)
        → get_config dev msg ≡ a
        → handle_message mmap can_send fds dev msg ≡ some (finish_message can_send a)
    unfolding handle_message call_handler finish_result
    handle_message-answer a e = ground (arith, asked, e)

    -- What a client that asks for the configuration of an initialised block device, whose capacity and
    -- block size have 64 and 32 bits, gets. If the size and the offset that the message names leave
    -- room for all 40 bytes, and the size is 256 at most, the same message comes back with the capacity
    -- and the block size behind the offset, all within the reply when the message is long enough for
    -- it; a message that is shorter than what it names comes back cut off, without the whole
    -- configuration. Otherwise the device is reset, without a reply.
    pub handle_message-config :
        (IsRoomy msg
          × (buffer + sizeof_config ≤ msg.size)
          × ((m : Message) × (handle_message mmap can_send fds dev msg
                ≡ some (send_reply can_send dev m []))
              × IsTold vblk msg m))
        ⊎ ((IsRoomy msg
              × (msg.size < buffer + sizeof_config)
              × ((m : Message) × (handle_message mmap can_send fds dev msg
                    ≡ some (send_reply can_send dev m []))
                  × (m.size < buffer + sizeof_config)))
            ⊎ ((¬ IsRoomy msg)
                × (handle_message mmap can_send fds dev msg ≡ some (reset_after dev none []))))
    unfolding finish_message message_assumes_reply
    handle_message-config = elim (IsRoomy-cases msg) [
      | inl r ↦
          let (e, told) = get_config-roomy r in
          let m : Message = record msg { payload = copied.1 } in
          let sent : handle_message mmap can_send fds dev msg
              ≡ some (send_reply can_send dev m []) =
            handle_message-answer _ e ∙ ground (arith, asked) in
          elim (Bool-cases (ltb msg.size (buffer + sizeof_config))) [
            | inl short ↦
                let cut : msg.size < buffer + sizeof_config = ground (arith, short) in
                inr (inl (r, cut, (m, sent, cut)))
            | inr long ↦ inl (r, ground (arith, long), (m, sent, told))
          ]
      | inr n ↦
          let (res, negative, e) = get_config-narrow n in
          inr (inr (n, handle_message-answer _ e ∙ rw negative refl))
    ]
