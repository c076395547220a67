-- ===== src/Gate.antt =====
-- internal/xsdgate: the checks of marshalled documents against the schema.
pub mod Table
pub mod Lexical
pub mod Schema
pub mod Xsd
pub mod Document
pub mod Model
pub mod Validate
pub mod Parse
pub mod Convert
