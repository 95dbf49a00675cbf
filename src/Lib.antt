-- ===== src/Lib.antt =====
-- The core of canopen-rs, a CANopen protocol stack (core/src), as functions on explicit state.
--
-- The program's parts, and the files that model them:
--   core/src/types.rs              Types, Types/NodeId: the errors, results and node identifiers.
--   core/src/datatypes.rs          Datatypes: ByteString, DataType, Value; `encode_le`, `decode_le`.
--   core/src/object_dictionary.rs  Objects: Address, Entry, ObjectDictionary and its accesses.
--   core/src/sdo/mod.rs            Sdo/Payload, Sdo/Codec, Sdo/Segment: the frames of the SDO protocol.
--                                  Sdo/Stream: `SegmentWriter` and `SegmentReader`.
--   core/src/sdo/server.rs         Sdo/Server: the server's handlers; `handle` is the entry.
--   core/src/sdo/client.rs         Sdo/Client: the client's handlers; `on_response` is the entry.
--                                  Sdo/Session: the client's loop with a server at the other end.
--   core/src/nmt.rs                Nmt: commands, heartbeats, node guarding, the state machine.
--   core/src/pdo.rs                Pdo, Pdo/Frame: the mapping of a PDO; `pack` and `unpack`.
--   core/src/sync.rs               Sync: the frames and the counter of a SYNC producer.
--   core/src/time.rs               Time: the time stamp.
--   core/src/emcy.rs               Emcy: emergency messages.
--   core/src/sdo/block.rs          Sdo/Block: the frames and the checksum of block transfers.
--                                  Sdo/Block/Writer, Receiver: `BlockWriter`, `BlockReceiver`;
--                                  Sdo/Block/Transfer: the loop that sends the one to the other.
--                                  Sdo/Block/Remainder: the division that the checksum stands for.
--   core/src/lss.rs                Lss: the frames of the layer setting services.
--                                  Lss/Slave: `LssSlave`; `handle` is the entry.
--                                  Lss/Master: `FastscanMaster`, and its loop with a slave.
--   core/src/node.rs               Node: the node's state and set-up; Node/Frame: `TxFrame`.
--                                  Node/Configure: PDOs from the dictionary. Node/Errors: the error
--                                  history. Node/Dispatch: `on_frame` and the frames it sends.
--   core/src/standard.rs           Standard: the communication-profile objects.
-- A node holds a dictionary, an SDO server, an NMT state, an LSS slave and the tables of its PDOs;
-- `on_frame` hands a received frame to one of them by its COB-ID.
-- Base holds what all share: lists, bytes, bit masks as arithmetic, tests. A file below a part
-- that is named for a property holds the lemmas of that property. Examples applies the theorems to
-- concrete objects, frames and containers.
--
-- How the code is modelled. A method that changes its object is a function that returns the new
-- object beside its result: a server's handler returns the server, the dictionary and the reply. A
-- fallible function returns `Result`. What may panic (a slice out of range, an underflow, a failed
-- `expect`) returns `Outcome`, whose `panicked` is the panic. A `u8`, `u16` or `u32` is a natural
-- number with its wrap-around written out where the code can reach it, a signed integer is a ℤ,
-- and a float is the bit pattern that its little-endian bytes carry. A long function of the source
-- is split at its matches; the parts carry the name of the branch.
--
-- The containers of the crate heapless are interfaces (Heapless): records of the operations that
-- the code uses, with the laws that heapless documents. Every theorem holds for all containers that
-- satisfy them; Examples/Containers has such containers.
--
-- The client's loop (Sdo/Session, `drive`) runs on fuel, one unit for an exchange of a request and
-- its reply. Six units are enough: one for the initiate frames, and at most five for the segments,
-- since a value has at most 32 bytes (`max_string_len`) and a segment carries seven.
--
-- A fastscan (Lss/Master, `discover`) runs on one unit for each request: 134 are enough, the first
-- probe, 33 for each of four identity values, and one to see that the scan is complete. A block
-- transfer (Sdo/Block/Transfer, `send`) runs on one unit for each call of `next_segment`: two for each
-- byte and one more are enough, since a call either sends a byte or more, or begins a new sub-block.
--
-- Not modelled: the textual views of byte strings; core/src/transport.rs, a trait over the drivers;
-- host and cli, which are parsing of text, code generation, sockets, timers and printing.
pub mod Base
pub mod Types
pub mod Datatypes
pub mod Heapless
pub mod Objects
pub mod Sdo
pub mod Nmt
pub mod Pdo
pub mod Sync
pub mod Time
pub mod Emcy
pub mod Lss
pub mod Node
pub mod Standard
pub mod Examples
