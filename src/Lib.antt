-- ===== src/Lib.antt =====
-- castella: a file server that stores encrypted files in shared drives of the Google Drive API.
--
-- The program's parts. `src/server.rs` answers HTTP requests by calls of `Store`
-- (`src/store.rs`), which keeps the rows of drives and files in the database (`src/db.rs`) and
-- the ciphertext in the drives, through the client of the Drive API (`src/drive.rs`). Content is
-- never held as a whole: it flows through the stream functions of `src/stream.rs` and the cipher
-- streams of `src/store.rs`.
--
-- Where each part is modelled, with the names of the source in snake case:
-- - Prelude: lists, options, results, booleans and numbers. Prelude.Words: the wrap-around of u32
--   and u64. Prelude.Ranges: `Range<u64>` and `impl RangeBounds<u64>`. Text: what is used of
--   `str`.
-- - Stream.Flow: a stream of `Result<Bytes, E>` as the list of its items. Stream.Library: the
--   crates futures, bytes and tokio-util as records of operations and documented laws, which are
--   parameters of the model; Stream.Concrete has values of them.
-- - Stream.Slice, Stream.Chunk, Stream.Bandwidth: `slice_stream`, `chunk_stream`,
--   `BandwidthLimiter`, `throttle_stream` and `debug_stream` of src/stream.rs. Each closure given
--   to `try_unfold` is a function on its `State`. Stream.Bandwidth.Threads has the atomic steps
--   of `throttle` on a limiter that threads share.
-- - Header: src/header.rs.
-- - Auth: src/auth.rs; each call comes with its readings of the clock and the answer of the token
--   service.
-- - Drive: the methods of `Drive` in src/drive.rs, as actions on a world of any type. The record
--   `Remote` stands for reqwest, the authenticator, the request limiter and serde_json.
-- - Drive.Service: what the service promises of the files that it keeps, as laws on a `Remote`. A
--   body that ends without an error is complete, and no law says that a body does; that whole
--   responses announce their length, which HTTP does not ask for, is the hypothesis `IsSized` of
--   the theorems that need it. Drive.Concrete: a service with these laws, which answers in part
--   and in whole.
-- - Db: the methods of `Db` in src/db.rs, each a transaction that the server may fail at any of
--   its steps, and whose commit may be done though its answer is lost; Db.Rows: the tables of
--   src/sql/migration1.sql and the statements. Db.Migration: the config table and `migrate`,
--   statement by statement; Db.Migration.Script: the text of src/sql/migration1.sql.
-- - Store.Cipher and Store.CipherStream: `ChunkStreamCipher`, `encrypt_stream`, `decrypt_stream`;
--   the record `Aead` stands for XChaCha20Poly1305. Store.Layout: the sizes and ranges of
--   `Store::upload` and `Store::get`. Store.Content: the streams of those two. Store.Operations:
--   all operations of `Store`. Store.Vault: the map from keys to documents that a store
--   represents.
-- - Server: the replies, `handle_result` and `recover` of src/server.rs; Server.Handlers: the
--   handlers. Server.Routes: `routes`, over the record `Warp` that stands for the filters of
--   warp; Server.Routes.Handled: what is done behind each of them.
-- - RateLimit: src/rate_limit.rs; the record `Governor` stands for the quotas of the governor
--   crate. Http: src/http.rs; the record `Reqwest` stands for the builder of reqwest, whose
--   methods set one setting each.
-- - Main: src/main.rs from the options to the server, with the constructors `Authenticator::new`,
--   `Drive::new` and `Db::new`.
-- - Tests: runs of the model, and the theorems at concrete inputs.
--
-- Fuel. `try_unfold` is polled a number of times that is given: one more than the items of the
-- stream, or, in `chunk_stream`, one more than the bytes to read. Every poll that gives an item
-- takes an item of the stream, or a byte at least, so the polls reach the end. The loop of
-- `migrate` has rounds: two are enough, since the script is applied once at most and the loop
-- stops at the next version. `decimal` writes at most 20 digits, which a u64 does not exceed.
--
-- Bounds. u64 and u32 arithmetic wraps around as written; theorems name the sizes for which
-- nothing wraps around. A file has at most `max_size` bytes, 2^32 - 1 chunks, since the index of
-- a chunk is a u32. Rows have their keys as numbers, and the order in which a query reads rows is
-- any.
--
-- Not modelled: how clap reads the command line, and what happens behind the start of the server
-- in `run`. The filters of warp are parameters. Logging has no effect here. What is drawn at
-- random is an argument. An upload's body reaches the service as a whole stream.
pub mod Prelude
pub mod Text
pub mod Header
pub mod Stream
pub mod Auth
pub mod Drive
pub mod Db
pub mod Store
pub mod Server
pub mod RateLimit
pub mod Http
pub mod Main
mod Tests
