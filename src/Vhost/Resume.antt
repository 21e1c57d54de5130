-- ===== src/Vhost/Resume.antt =====
-- GET_VRING_BASE, and a vring that goes on from there: also after a new connection, or in another
-- process.
use libvhost_user.Base.{
  by_test, has_any, Option-cases, ◌-◌, ℕ, ◌<◌, ◌≤◌, ◌%◌, ◌≡◌, refl, subst, Bool, true, false, some,
  ltb, ℤ, arith, inl, inr, Bool-cases, get_elem?, u16_mod, u32_mod, ◌==ℤ◌, minus_one, ◌||◌, ◌==◌,
}
use libvhost_user.Base.{pos as ok}
use libvhost_user.Memory.{MemoryMap}
use libvhost_user.Ram.{Ram}
use libvhost_user.Ram.Laws.{read32-write32}
use libvhost_user.Vdev.{VirtioDev}
use libvhost_user.Virtqueue.Layout.{Virtqueue, max_size}
use libvhost_user.Virtqueue.Setup
use libvhost_user.Virtqueue.Setup.{started, map_parts}
use libvhost_user.Vhost.Protocol.{
  Message, sizeof_vring_state, get_vring_index, get_num, set_num, has_feature, f_event_idx,
}
use libvhost_user.Vhost.Device.{Vring, VhostDev}
use libvhost_user.Vhost.Ring.{vring_start, vring_stop}
use libvhost_user.Vhost.Handlers.{answer, with_vring, on_vring}
use libvhost_user.Vhost.RingHandlers.{set_vring_base, put_base, get_vring_base, take_base}

get_num-set_num : (msg : Message) (n : ℕ) → n < u32_mod → get_num (set_num msg n) ≡ n
unfolding get_num set_num
get_num-set_num msg n h = read32-write32 msg.payload 4 n h

-- The vring that GET_VRING_BASE leaves.
abbrev pub paused : Vring → Vring
paused v = record v { is_started = false; avail_base = v.vq.last_seen_avail }

vring_stop-paused :
    (v : Vring) → vring_stop (record v { avail_base = v.vq.last_seen_avail }) ≡ paused v
unfolding vring_stop
vring_stop-paused v = ground arith

get_vring_base-paused :
    (dev : VhostDev) (msg : Message) (v : Vring)
    → sizeof_vring_state ≤ msg.size
    → get_vring_index msg ≤ dev.num_queues
    → get_elem? dev.vrings (get_vring_index msg) ≡ some v
    → get_vring_base dev msg
      ≡ some (
          answer
            (ok 0)
            (with_vring dev (get_vring_index msg) (paused v))
            (set_num msg v.vq.last_seen_avail))
unfolding get_vring_base take_base
get_vring_base-paused dev msg v size index e =
    let whole : ltb msg.size sizeof_vring_state ≡ false = ground (arith, size) in
    let known : ltb dev.num_queues (get_vring_index msg) ≡ false = ground (arith, index) in
    rw (whole, known, on_vring, e, vring_stop-paused v) refl

set_vring_base-set :
    (dev : VhostDev) (msg : Message) (v : Vring)
    → sizeof_vring_state ≤ msg.size
    → get_vring_index msg ≤ dev.num_queues
    → get_elem? dev.vrings (get_vring_index msg) ≡ some v
    → set_vring_base dev msg
      ≡ some (
          answer
            (ok 0)
            (with_vring dev (get_vring_index msg) (record v { avail_base = get_num msg }))
            msg)
unfolding set_vring_base put_base
set_vring_base-set dev msg v size index e =
    let whole : ltb msg.size sizeof_vring_state ≡ false = ground (arith, size) in
    let known : ltb dev.num_queues (get_vring_index msg) ≡ false = ground (arith, index) in
    rw (whole, known, on_vring, e) refl

start-seen :
    (mem : MemoryMap) (ram : Ram) (vq : Virtqueue) (qsize desc_gpa avail_gpa used_gpa base : ℕ)
    (callfd : ℤ) (has_event_idx : Bool)
    → let r = Setup.start mem ram vq qsize desc_gpa avail_gpa used_gpa base callfd has_event_idx in
      (r.0 ≡ ok 0 → r.1.last_seen_avail ≡ base)
unfolding Setup.start started
start-seen mem ram vq qsize desc_gpa avail_gpa used_gpa base callfd has_event_idx =
    elim (Bool-cases ((qsize == 0 || has_any qsize (qsize - 1)) || ltb max_size qsize)) [
      | inl t ↦ rw t (λ e. absurd (ground (arith, e)))
      | inr t ↦ elim (Option-cases (map_parts mem qsize desc_gpa avail_gpa used_gpa)) [
        | inl u ↦ rw (t, u) (λ e. absurd (ground (arith, e)))
        | inr (parts, u) ↦ rw (t, u) (λ e. refl)
      ]
    ]

-- A vring that starts takes its first entry from where its base says.
record IsBased (v : Vring) (r : ℤ × Vring × Ram) : Type 0 where
  based : r.0 ≡ ok 0 → (r.1.vq.last_seen_avail ≡ v.avail_base % u16_mod) × (r.1.is_started ≡ true)

vring_start-IsBased :
    (mem : MemoryMap) (vdev : VirtioDev) (v : Vring) (ram : Ram)
    → v.is_started ≡ false
    → IsBased v (vring_start mem vdev v ram)
unfolding vring_start
vring_start-IsBased mem vdev v ram s =
    let event = has_feature vdev.features f_event_idx in
    let base = v.avail_base % u16_mod in
    let seen =
      start-seen mem ram v.vq (v.size % u16_mod) v.desc_addr v.avail_addr v.used_addr base v.callfd
        event in
    let r =
      Setup.start mem ram v.vq (v.size % u16_mod) v.desc_addr v.avail_addr v.used_addr base v.callfd
        event in
    by_test (IsBased v) (v.size == 0 || v.kickfd ==ℤ minus_one)
      (λ t. record { based = λ e. absurd (ground (arith, e)) })
      (λ t.
        by_test (IsBased v) v.is_started (λ u. absurd (ground (arith, s, u)))
          (λ u.
            by_test (IsBased v) (r.0 ==ℤ ok 0) (λ x. record { based = λ e. (seen e, refl) })
              (λ x. record { based = λ e. absurd (ground (arith, e, x)) })))

-- GET_VRING_BASE of a vring that there is stops it and replies with the number of the entry that its
-- queue takes next. When a vring that is not started, of this device or of another one, is given that
-- number by SET_VRING_BASE and then starts, it goes on with just that entry.
pub get_vring_base-resumes :
    (dev dev' : VhostDev) (msg msg' : Message) (v v' w : Vring) (mem : MemoryMap) (vdev : VirtioDev)
    (ram ram' : Ram)
    → sizeof_vring_state ≤ msg.size
    → get_vring_index msg ≤ dev.num_queues
    → get_elem? dev.vrings (get_vring_index msg) ≡ some v
    → v.vq.last_seen_avail < u16_mod
    → sizeof_vring_state ≤ msg'.size
    → get_vring_index msg' ≤ dev'.num_queues
    → get_elem? dev'.vrings (get_vring_index msg') ≡ some v'
    → get_num msg' ≡ get_num (set_num msg v.vq.last_seen_avail)
    → v'.is_started ≡ false
    → vring_start mem vdev (record v' { avail_base = get_num msg' }) ram ≡ (ok 0, w, ram')
    → (get_vring_base dev msg
        ≡ some (
            answer
              (ok 0)
              (with_vring dev (get_vring_index msg) (paused v))
              (set_num msg v.vq.last_seen_avail)))
      × (get_num (set_num msg v.vq.last_seen_avail) ≡ v.vq.last_seen_avail)
      × (set_vring_base dev' msg'
          ≡ some (
              answer
                (ok 0)
                (with_vring dev' (get_vring_index msg') (record v' { avail_base = get_num msg' }))
                msg'))
      × (w.is_started ≡ true)
      × (w.vq.last_seen_avail ≡ v.vq.last_seen_avail)
get_vring_base-resumes dev dev' msg msg' v v' w mem vdev ram ram' size index e fits size' index' e'
      number stopped starts =
    let told = get_num-set_num msg v.vq.last_seen_avail (omega (arith, fits)) in
    let based =
      vring_start-IsBased mem vdev (record v' { avail_base = get_num msg' }) ram stopped in
    let (seen, running) =
      (subst {A = ℤ × Vring × Ram} (IsBased (record v' { avail_base = get_num msg' })) starts
          based).based
        refl in
    (
      get_vring_base-paused dev msg v size index e,
      told,
      set_vring_base-set dev' msg' v' size' index' e',
      running,
      omega (arith, seen, number, told, fits),
    )
