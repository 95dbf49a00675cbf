-- ===== src/Examples.antt =====
-- Concrete containers, objects and frames, on which the theorems of the other files are applied.
pub mod Containers
pub mod Device
mod Data
mod Dictionary
mod Frames
mod Streams
mod Transfers
mod Network
mod Settings
mod Blocks
mod Nodes
