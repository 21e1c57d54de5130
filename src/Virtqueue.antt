-- ===== src/Virtqueue.antt =====
-- virtio/virtqueue.c and include/virtio/virtqueue.h: a virtqueue in shared memory.
-- `vq->mem` points to the region table of the device, so the table is an argument where it is read.
-- The guest does not write while a function runs.
pub mod Layout
pub mod Setup
pub mod Iterator
pub mod Rings
pub mod Placed
pub mod Start
pub mod Started
pub mod Chain
pub mod Loop
pub mod Frame
pub mod Fifo
pub mod Heads
pub mod Ready
pub mod Used
pub mod Notify
pub mod Fixture
mod Tests
