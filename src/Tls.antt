-- ===== src/Tls.antt =====
-- pkg/sep2tls: device identifiers, the verification of a peer's certificate chain, and the server and
-- client of CCM-8.
pub mod Identity
pub mod Verify
pub mod Listener
pub mod Middleware
pub mod Roots
pub mod Server
