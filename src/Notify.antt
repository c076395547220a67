-- ===== src/Notify.antt =====
-- pkg/sep2client/notify: the receiver of Notification POSTs.
pub mod Lifecycle
pub mod Handler
