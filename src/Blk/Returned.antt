-- ===== src/Blk/Returned.antt =====
-- What the driver finds when the backend has completed a request.
use libvhost_user.Ram.{Ram}
use libvhost_user.Virtqueue.Layout.{Virtqueue}
