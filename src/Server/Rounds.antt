-- ===== src/Server/Rounds.antt =====
-- The rounds of `process_event` one by one.
use libvhost_user.Base.{
  ℕ, zero, suc, ◌≡◌, ◌≢◌, ◌⊎◌, refl, Bool, Option, none, some, List, ◌++◌, if◌then◌else◌, ◌==ℤ◌,
  arith, inl, inr, Bool-cases, enoent,
}
use libvhost_user.Memory.{MemoryMap}
use libvhost_user.System.{Call}
use libvhost_user.Blk.Device.{VirtioBlk}
use libvhost_user.Blk.Request.{VirtioBlkIo, success}
use libvhost_user.Blk.Dispatch.{Outcome, blk_dequeue_request, blk_complete_request}
use libvhost_user.Server.{
  DiskImage, BioResult, finished, died, bad_vec, serve_type, ServerState, Processed, out_of_fuel,
  complete, process_io, process_one,
}

module _ {F : Type 0} where
  -- The state that the next round starts from, behind a request that was served.
  unfoldable pub completed :
      VirtioBlkIo → List Call → Outcome → BioResult F → Option (ServerState F)
  completed io calls o (finished file ram) =
      let ((vq, ram', done), live) = blk_complete_request o.live io success o.vq ram in
      some
        (record { file = file; vq = vq; ram = ram'; live = live; calls = calls ++ o.calls ++ done })
  completed io calls o (died d) = none
  completed io calls o bad_vec = none

  complete-completed :
      (io : VirtioBlkIo) (calls : List Call) (o : Outcome) (again : ServerState F → Processed F)
      (r : BioResult F)
      → ((st : ServerState F) × (completed io calls o r ≡ some st)
          × (complete io calls o again r ≡ again st))
        ⊎ (complete io calls o again r ≢ out_of_fuel)
  unfolding completed complete
  complete-completed io calls o again (finished file ram) = inl (_, refl, refl)
  complete-completed io calls o again (died d) = inr (λ e. absurd (ground arith))
  complete-completed io calls o again bad_vec = inr (λ e. absurd (ground arith))

module _ {F : Type 0} (image : DiskImage F) where
  unfoldable pub after_io : F → List Call → Outcome → Option VirtioBlkIo → Option (ServerState F)
  after_io file calls o none = none
  after_io file calls o (some io) =
      completed io calls o (serve_type image io.bio.type io.bio file o.ram)

module _ {F : Type 0} (image : DiskImage F) (can_alloc : ℕ → Bool) (mem : MemoryMap)
    (vblk : VirtioBlk) where
  -- The state after one round, if there is another one.
  unfoldable pub next_round : ServerState F → Option (ServerState F)
  next_round st =
      let o = blk_dequeue_request can_alloc mem vblk st.live st.vq st.ram in
      if o.res ==ℤ enoent then none else after_io image st.file st.calls o o.io

  -- A round goes on with the next one, or ends the loop.
  pub process_one-next_round :
      (again : ServerState F → Processed F) (st : ServerState F)
      → ((st' : ServerState F) × (next_round st ≡ some st')
          × (process_one image can_alloc mem vblk again st ≡ again st'))
        ⊎ (process_one image can_alloc mem vblk again st ≢ out_of_fuel)
  unfolding process_one next_round
  process_one-next_round again st =
      let o = blk_dequeue_request can_alloc mem vblk st.live st.vq st.ram in
      elim (Bool-cases (o.res ==ℤ enoent)) [
        | inl t ↦ inr (rw t (λ e. absurd (ground (arith, e))))
        | inr t ↦ rw t (io o o.io)
      ]
    where
      io :
          (o : Outcome) (i : Option VirtioBlkIo)
          → ((st' : ServerState F) × (after_io image st.file st.calls o i ≡ some st')
              × (process_io image again st.file st.calls o i ≡ again st'))
            ⊎ (process_io image again st.file st.calls o i ≢ out_of_fuel)
      io o none = unfold process_io in inr (λ e. absurd (ground arith))
      io o (some i) =
          unfold process_io after_io in
          complete-completed i st.calls o again (serve_type image i.bio.type i.bio st.file o.ram)

  -- The state after that many rounds, if there are so many.
  unfoldable pub after_rounds : ℕ → ServerState F → Option (ServerState F)
  after_rounds zero st = some st
  after_rounds (suc n) st = elim (next_round st) [ none ↦ none | some st' ↦ after_rounds n st' ]

  pub after_rounds-next :
      (n : ℕ) (st st' : ServerState F)
      → next_round st ≡ some st'
      → after_rounds (suc n) st ≡ after_rounds n st'
  unfolding after_rounds
  after_rounds-next n st st' e = rw (after_rounds, e) refl

  pub after_rounds-last :
      (n : ℕ) (st : ServerState F) → next_round st ≡ none → after_rounds (suc n) st ≡ none
  unfolding after_rounds
  after_rounds-last n st e = rw (after_rounds, e) refl
