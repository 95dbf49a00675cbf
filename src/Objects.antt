-- ===== src/Objects.antt =====
-- core/src/object_dictionary.rs: addresses, entries and the object dictionary.
pub mod Address
pub mod Entry
pub mod ObjectDictionary
