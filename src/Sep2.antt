-- ===== src/Sep2.antt =====
-- pkg/sep2: the wire encodings of the resource types.
pub mod HexBinary
pub mod Result
pub mod Content
pub mod Bounded
pub mod DerModes
pub mod Namespace
