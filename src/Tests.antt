-- ===== src/Tests.antt =====
-- The theorems at concrete inputs.
mod Codec
mod Modes
mod Identity
mod Notify
mod Cert
mod San
mod Server
mod Listener
mod Parse
mod Validate
mod Gate
mod Convert
