-- ===== src/Store.antt =====
-- src/store.rs: the encrypted store over the database and the drive.
pub mod Cipher
pub mod CipherStream
pub mod Layout
pub mod Vault
pub mod Content
pub mod Concrete
pub mod Operations
