-- ===== src/Server/Pending.antt =====
-- How many rounds `process_event` makes.
use libvhost_user.Base.{
  ℕ, zero, suc, ◌<◌, ◌≡◌, ◌≢◌, ◌⊎◌, refl, sym, subst, ◌∙◌, Bool, true, Option, none, some, List,
  if◌then◌else◌, ◌==ℤ◌, arith, inl, inr, Bool-cases, enoent, u16_mod, add16, sub16,
}
use libvhost_user.Memory.{MemoryMap}
use libvhost_user.Ram.{Ram, write8}
use libvhost_user.System.{Call}
use libvhost_user.Virtqueue.Layout.{Virtqueue, Iter}
use libvhost_user.Virtqueue.Iterator.{mark_broken}
use libvhost_user.Virtqueue.Rings.{read_avail_idx, dequeue_avail, enqueue_used}
use libvhost_user.Blk.Device.{VirtioBlk}
use libvhost_user.Blk.Request.{VirtioBlkIo, success, status_value}
use libvhost_user.Blk.Rw.{IoResult}
use libvhost_user.Blk.Dispatch.{
  parse, Outcome, outcome_of, handle_blk_request, dequeue_from, blk_dequeue_request,
  blk_complete_request,
}
use libvhost_user.Blk.Lifecycle.{parse-IsKept, blk_dequeue_request_not_broken}
use libvhost_user.Server.{
  DiskImage, BioResult, finished, died, bad_vec, serve_type, ServerState, out_of_fuel,
  process_event,
}
use libvhost_user.Server.Rounds.{
  completed, after_io, next_round, process_one-next_round, after_rounds, after_rounds-next,
}

module _ {F : Type 0} (image : DiskImage F) (can_alloc : ℕ → Bool) (mem : MemoryMap)
    (vblk : VirtioBlk) where
  taken :
      (vq vq' : Virtqueue) (ram ram' : Ram) (it : Iter)
      → dequeue_avail vq ram ≡ (some it, vq', ram')
      → (vq.last_seen_avail ≢ read_avail_idx vq ram)
        × (vq'.last_seen_avail ≡ add16 vq.last_seen_avail 1)
  unfolding dequeue_avail
  taken vq vq' ram ram' it e = (ground (arith, e), ground (arith, e))

  same_seen :
      (vq vq' : Virtqueue)
      → (vq' ≡ vq) ⊎ (vq' ≡ mark_broken vq)
      → vq'.last_seen_avail ≡ vq.last_seen_avail
  same_seen vq vq' e = ground arith

  enqueue_used-seen :
      (vq : Virtqueue) (ram : Ram) (head n : ℕ)
      → (enqueue_used vq ram head n).0.last_seen_avail ≡ vq.last_seen_avail
  unfolding enqueue_used
  enqueue_used-seen vq ram head n = ground arith

  completed-seen :
      (io : VirtioBlkIo) (calls : List Call) (o : Outcome) (r : BioResult F) (st' : ServerState F)
      → completed io calls o r ≡ some st'
      → st'.vq.last_seen_avail ≡ o.vq.last_seen_avail
  unfolding completed blk_complete_request
  completed-seen io calls o (finished file ram) st' e =
      let ram' = write8 ram io.pstatus (status_value success) in
      let kept = enqueue_used-seen o.vq ram' io.head 0 in ground (arith, e, kept)
  completed-seen io calls o (died d) st' e = absurd (ground arith)
  completed-seen io calls o bad_vec st' e = absurd (ground arith)

  outcome_of-seen :
      (calls : List Call) (file : F) (ram : Ram) (r : IoResult) (i : Option VirtioBlkIo)
      (st' : ServerState F)
      → after_io image file calls (outcome_of ram r i) (outcome_of ram r i).io ≡ some st'
      → st'.vq.last_seen_avail ≡ r.vq.last_seen_avail
  unfolding after_io outcome_of
  outcome_of-seen calls file ram r none st' e = absurd (ground arith)
  outcome_of-seen calls file ram r (some io) st' e =
      completed-seen io calls (outcome_of ram r (some io))
        (serve_type image io.bio.type io.bio file ram) st' e

  dequeue_from-seen :
      (live : ℕ) (calls : List Call) (file : F) (vq : Virtqueue) (ram : Ram)
      (d : Option Iter × Virtqueue × Ram) (st' : ServerState F)
      → dequeue_avail vq ram ≡ d
      → (let o = dequeue_from can_alloc mem vblk live d in
          (if o.res ==ℤ enoent then none else after_io image file calls o o.io) ≡ some st')
      → (vq.last_seen_avail ≢ read_avail_idx vq ram)
        × (st'.vq.last_seen_avail ≡ add16 vq.last_seen_avail 1)
  unfolding dequeue_from handle_blk_request
  dequeue_from-seen live calls file vq ram (none, vq', ram') st' e f = absurd (ground arith)
  dequeue_from-seen live calls file vq ram (some it, vq', ram') st' e f =
      let r = parse can_alloc mem ram' vblk vq' it live in
      let o = outcome_of ram' r r.io in
      let (entry, seen) = taken vq vq' ram ram' it e in
      let kept = same_seen vq' r.vq (parse-IsKept can_alloc mem vblk live ram' vq' it).vq_kept in
      elim (Bool-cases (o.res ==ℤ enoent)) [
        | inl t ↦ absurd (ground (arith, f, t))
        | inr t ↦ (entry, outcome_of-seen calls file ram' r r.io st' (rw t at f) ∙ kept ∙ seen)
      ]

  broken-io :
      (live : ℕ) (vq : Virtqueue) (ram : Ram)
      → vq.is_broken ≡ true
      → let o = blk_dequeue_request can_alloc mem vblk live vq ram in (o.io ≡ none)
  unfolding blk_dequeue_request
  broken-io live vq ram h = ground arith

  no_io :
      (st : ServerState F) (o : Outcome)
      → o.io ≡ none
      → after_io image st.file st.calls o o.io ≡ none
  unfolding after_io
  no_io st o e = rw e refl

  next_round-seen :
      (st st' : ServerState F)
      → next_round image can_alloc mem vblk st ≡ some st'
      → (st.vq.last_seen_avail ≢ read_avail_idx st.vq st.ram)
        × (st'.vq.last_seen_avail ≡ add16 st.vq.last_seen_avail 1)
  unfolding next_round
  next_round-seen st st' e =
      let o = blk_dequeue_request can_alloc mem vblk st.live st.vq st.ram in
      elim (Bool-cases st.vq.is_broken) [
        | inl t ↦
            let none_left = no_io st o (broken-io st.live st.vq st.ram t) in
            absurd (ground (arith, e, none_left))
        | inr t ↦
            let whole = blk_dequeue_request_not_broken can_alloc mem vblk st.live st.vq st.ram t in
            dequeue_from-seen st.live st.calls st.file st.vq st.ram (dequeue_avail st.vq st.ram) st'
              refl
              (subst {A = Outcome}
                (λ x.
                  (if x.res ==ℤ enoent then none else after_io image st.file st.calls x x.io)
                  ≡ some st')
                whole e)
      ]

  -- A call of `process_event` comes to its end within one round more than the available ring has
  -- entries to come, as long as the driver adds none and no request is read into the index of the
  -- ring: it returns, ends the process, or reads the type of a request that it does not have.
  pub process_event-ne-out_of_fuel :
      (fuel idx : ℕ) (st : ServerState F)
      → idx < u16_mod
      → st.vq.last_seen_avail < u16_mod
      → ((n : ℕ) (st' : ServerState F)
          → after_rounds image can_alloc mem vblk n st ≡ some st'
          → read_avail_idx st'.vq st'.ram ≡ idx)
      → sub16 idx st.vq.last_seen_avail < fuel
      → process_event image can_alloc mem vblk fuel st ≢ out_of_fuel
  unfolding process_event
  process_event-ne-out_of_fuel zero idx st small fits quiet enough = absurd (omega (arith, enough))
  process_event-ne-out_of_fuel (suc fuel) idx st small fits quiet enough =
      elim (process_one-next_round image can_alloc mem vblk
        (process_event image can_alloc mem vblk fuel) st) [
          | inr ended ↦ ended
          | inl (st', next, same) ↦
              let (entry, seen) = next_round-seen st st' next in
              let now = quiet 0 st (unfold after_rounds in refl) in
              let later =
                process_event-ne-out_of_fuel fuel idx st' small (omega (arith, seen))
                  (λ n st'' r.
                    quiet (suc n) st''
                      (after_rounds-next image can_alloc mem vblk n st st' next ∙ r))
                  (omega (arith, entry, seen, now, enough, small, fits)) in
              λ e. later (sym same ∙ e)
        ]
