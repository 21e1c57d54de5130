-- ===== src/Blk.antt =====
-- virtio/blk.c and include/virtio/blk.h: the virtio block device.
pub mod Device
pub mod Request
pub mod Rw
pub mod Dispatch
pub mod Init
pub mod Gather
pub mod Ends
pub mod Accept
pub mod RwKept
pub mod Handover
pub mod Lifecycle
pub mod Returned
pub mod Parse
pub mod Fixture
mod Tests
