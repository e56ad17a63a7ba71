-- ===== src/Stream.antt =====
-- src/stream.rs: the stream combinators, one module for each, over the interfaces of `Library`.
pub mod Flow
pub mod Library
pub mod Concrete
pub mod Slice
pub mod Chunk
pub mod Bandwidth
