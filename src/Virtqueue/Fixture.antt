-- ===== src/Virtqueue/Fixture.antt =====
-- A queue of four descriptors with one request on it, for the tests.
use libvhost_user.Base.{ℕ, ◌+◌, ◌*◌, ◌≤◌, ◌<◌, ◌≡◌, inl, refl, true, false, some, [], ◌∷◌, arith}
use libvhost_user.Base.{pos as ok}
use libvhost_user.Memory.{Region, MemoryMap}
use libvhost_user.Memory.Spec.{host}
use libvhost_user.Memory.Valid.{IsValid}
use libvhost_user.Ram.{Ram, write16, write32, write64}
use libvhost_user.Virtqueue.Layout.{Virtqueue, Iter}
use libvhost_user.Virtqueue.Iterator.{start_desc_chain}
use libvhost_user.Virtqueue.Chain.{IsMapped, IsSafe, inside}
use libvhost_user.Virtqueue.Fifo.{IsRings}

abbrev pub base : ℕ
base = 1048576

abbrev pub guest : Region
guest = record { gpa = 0; len = 65536; hva = base; ro = false }

abbrev pub table : MemoryMap
table = guest ∷ []

pub table-IsValid : IsValid table
table-IsValid = record {
  sorted = (
    omega arith,
    record { nonempty = omega arith; gpa_fits = omega arith; hva_fits = omega arith },
    tt,
  );
  bounded = omega arith;
}

abbrev pub put_desc : Ram → (index addr len flags next : ℕ) → Ram
put_desc ram index addr len flags next =
    let p = base + 16 * index in
    write16 (write16 (write32 (write64 ram p addr) (p + 8) len) (p + 12) flags) (p + 14) next

-- Three descriptors: a header of 16 bytes, a sector to fill, and a status byte.
abbrev pub chain : Ram
chain = put_desc (put_desc (put_desc (λ _. 0) 0 4096 16 1 1) 1 8192 512 3 2) 2 12288 1 2 0

-- The driver has made the chain at descriptor 0 available.
abbrev pub ram : Ram
ram = write16 chain (base + 66) 1

abbrev pub vq : Virtqueue
vq = record {
  desc = base;
  avail = base + 64;
  used = base + 80;
  qsize = 4;
  last_seen_avail = 0;
  is_broken = false;
  callfd = ok 7;
  has_event_idx = true;
  signalled_used_idx = 0;
}

abbrev pub it : Iter
it = start_desc_chain vq 0

pub vq-IsRings : IsRings vq
vq-IsRings = record {
  exponent = 2;
  pow2 = refl;
  small = omega arith;
  seen_fits = omega arith;
  apart = inl (omega arith);
}

table_byte : (i : ℕ) → i < 65536 → host table true (0 + i) ≡ some (base + i)
unfolding host
table_byte i b = ground arith

pub table-IsMapped : (n : ℕ) → n ≤ 65536 → IsMapped table true base n
table-IsMapped n h = record { gpa = 0; bytes = λ i b. table_byte i (omega arith) }

pub it-IsSafe : IsSafe table it
unfolding start_desc_chain
it-IsSafe = inside 64 (table-IsMapped 64 (omega arith)) (omega arith) (omega arith)
