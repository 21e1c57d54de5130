-- ===== src/Vhost.antt =====
-- vhost.c, include/vhost.h and include/vhost-protocol.h: the vhost-user protocol.
pub mod Protocol
pub mod Device
pub mod Ring
pub mod MemTable
pub mod Handlers
pub mod RingHandlers
pub mod Dispatch
pub mod Event
pub mod Client
pub mod Server
pub mod Connected
pub mod Peer
pub mod Linked
pub mod LifeCycle
pub mod Live
pub mod Starts
pub mod Sockets
pub mod Loop
pub mod Doomed
pub mod Disconnect
pub mod Cases
pub mod Every
pub mod Quiet
pub mod Reset
pub mod Bounds
pub mod Sized
pub mod Keep
pub mod Invariant
pub mod Table
pub mod Shared
pub mod Confined
pub mod Addresses
pub mod Resume
pub mod Register
pub mod Kick
pub mod Answers
pub mod Sent
pub mod Negotiated
pub mod Reply
pub mod Buffer
pub mod Config
pub mod Fixture
pub mod Session
mod Tests
mod TableTests
mod LifeTests
mod LiveTests
