-- ===== src/Cert.antt =====
-- pkg/sep2cert: object identifiers, hardware module names, and the checks on an issuing CA.
pub mod Oid
pub mod Ca
pub mod San
pub mod Pem
