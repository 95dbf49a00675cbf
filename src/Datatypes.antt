-- ===== src/Datatypes.antt =====
-- core/src/datatypes.rs: the basic data types, typed values and their wire bytes.
pub mod ByteString
pub mod DataType
pub mod Value
pub mod Lemmas
pub mod Decode
pub mod Sizes
