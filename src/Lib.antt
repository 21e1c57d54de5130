-- ===== src/Lib.antt =====
-- libvhost-user: the device side of the vhost-user protocol, a library for virtio devices that run
-- in a process of their own and share memory with a virtual machine.
--
-- The parts and how they interact:
-- * Memory models virtio/memory.c: the table of guest regions that are mapped into the process
--   (add_guest_region is virtio_add_guest_region, find_gpa_range is virtio_find_gpa_range). `host`
--   in Memory/Spec is the independent description: the host address of each guest address.
-- * Virtqueue models virtio/virtqueue.c. Layout has the structs and where their parts lie in memory,
--   Setup virtqueue_start, Iterator virtqueue_next_buffer, Rings virtqueue_dequeue_avail,
--   virtqueue_enqueue_used and virtqueue_release_buffers. It asks Memory for each address that comes
--   from the guest.
-- * Vdev models include/virtio/vdev.h, what all device types share.
-- * Blk models virtio/blk.c: Device initialisation, features and configuration, Request the data
--   of a request, Rw blk_rw, Dispatch the rest, up to virtio_blk_dequeue_request and
--   virtio_blk_complete_request. It takes chains from a Virtqueue and gives them back.
-- * Vhost models vhost.c: Protocol messages and constants, Device the state of a device and of its
--   vrings, Ring what is done with one vring, MemTable the memory of a device, Handlers and
--   RingHandlers the request handlers, Dispatch handle_message, send_reply and vhost_reset_dev,
--   Event registration, connections, incoming messages and kicks, Server the sockets, Loop the
--   calls of the event loop. LifeCycle has the events of a device as a step relation; Starts and
--   Sockets say what handlers and socket events do to vrings that are started, and Live follows
--   these over the life of a device; Every and Quiet are how a property is shown of all handlers at
--   once; Shared is about the memory that the client shares, Confined about that memory in the hands
--   of a block device, Buffer about the message buffer, Config about what a block device tells the
--   client, Addresses about the addresses of the client. Vhost fills the table of Memory, starts the
--   virtqueues and hands kicks to the client's handler, which for a block device is Blk.
-- * Evloop models evloop.c, the loop that calls the handlers of Vhost: the module itself
--   evloop_create, evloop_add_fd, evloop_del_fd and evloop_free, Handler evloop_run with the handlers,
--   as trees of calls of the loop (Act), Registry what the code relies on of the kernel (IsEpoll).
-- * Server models tools/server/server.c, a backend for Blk: the module itself handle_rw and
--   process_event, Main the start up to the registration of the device, Copy the description
--   of reads and writes byte by byte and what the code relies on of pread and pwrite (IsImage),
--   Life process_event as the handler that Vhost calls: it fills the interface of Vhost/Client.
-- * Ram is the memory that the code reads and writes through its pointers, bytes at addresses;
--   System the calls of the operating system, as a trace.
-- * Platform models include/platform.h: VHOST_VERIFY, container_of, the wrappers of the allocator.
-- * Base has what the parts share: Boolean tests, lists with native indices, C integers, words.
--
-- A struct is a record, and a function that changes state takes it and returns it. An error number
-- is an integer, -EINVAL as in the source. A word wraps where the source's type does (`% 2 ^ w`).
--
-- Fuel. The loop of virtqueue_next_buffer over indirect descriptors has fuel 2, since a second one
-- in a row is refused. The loop of blk_rw has one round more than the queue has descriptors, since
-- each buffer counts and the count is bounded by the queue size. The fuel of evloop_run bounds the
-- calls of epoll_wait that signals interrupt (`wakes` says that it is enough), that of process_event
-- the requests that the driver makes; the loop of handle_rw has one round for each vector.
--
-- The operating system is a parameter: which allocations and messages succeed, what mmap returns, what
-- is received; pread and pwrite may move less than asked for, or fail. An access outside of an array is
-- the result `none` in Vhost, and no step of LifeCycle.
--
-- Not modelled: writes of the guest while a function runs, and memory barriers; null pointers, since
-- the callers give none; a handler that runs the event loop itself; the endless loop in the server's
-- main; logging. VHOST_VERIFY ends the process in a build without NDEBUG only (`ndebug`); its checks
-- of pointers, and of a connection where the life of a device shows that there is one, are left out.
pub mod Base
pub mod Memory
pub mod Ram
pub mod System
pub mod Platform
pub mod Virtqueue
pub mod Vdev
pub mod Blk
pub mod Evloop
pub mod Server
pub mod Vhost
