-- ===== src/Golang.antt =====
-- What the code uses of the Go language and its standard library.
pub mod Strings
pub mod Strconv
pub mod Xml
pub mod Bits
pub mod Fmt
pub mod Bytes
