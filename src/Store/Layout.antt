-- ===== src/Store/Layout.antt =====
-- The arithmetic of `Store::upload` and `Store::get` in src/store.rs: the size of the ciphertext, and
-- the ranges of chunks, of the encrypted file and of the decrypted stream.
pub mod Bounds
use castella.Prelude.{ℕ, ◌+◌, ◌-◌, ◌*◌, ◌/◌, min, Option, none, some, ◌&&◌, ltb, leb, if◌then◌else◌}
use castella.Prelude.Words.{add_u64, sub_u64, as_u32, mul_u64, saturating_add_u64}
use castella.Prelude.Ranges.{Bound, included, excluded, unbounded, Range, RangeBounds}
use castella.Store.Cipher.{chunk_size, tag_size, encrypted_chunk_size}

-- `encrypted_size`: one tag for each chunk. `size.saturating_sub(1)` is `size - 1` here.
unfoldable pub encrypted_size : ℕ → ℕ
encrypted_size size = add_u64 size (mul_u64 (add_u64 ((size - 1) / chunk_size) 1) tag_size)

abbrev pub start_of : Bound → ℕ
start_of (included v) = v
start_of (excluded v) = saturating_add_u64 v 1
start_of unbounded = 0

abbrev pub end_of : Bound → ℕ → ℕ
end_of (included v) size = saturating_add_u64 v 1
end_of (excluded v) size = v
end_of unbounded size = size

unfoldable pub resolve_range : RangeBounds → ℕ → Option Range
resolve_range range size =
    let start = start_of range.start_bound in
    let end = end_of range.end_bound size in
    if ltb start end && leb end size then some (record { start = start; end = end }) else none

-- `range.and_then(|range| Self::resolve_range(range, size)).unwrap_or(0..size)`
unfoldable pub requested_range : Option RangeBounds → ℕ → Range
unfolding resolve_range
requested_range none size = record { start = 0; end = size }
requested_range (some range) size = elim (resolve_range range size) [
  | none ↦ record { start = 0; end = size }
  | some r ↦ r
]

-- `chunk_range`: the ids of the chunks that hold the range, as u32s.
unfoldable pub chunk_range : Range → Range
chunk_range range = record {
  start = as_u32 (range.start / chunk_size);
  end = as_u32 (add_u64 ((range.end - 1) / chunk_size) 1);
}

-- `encrypted_range`: from the chunks and the size of the encrypted file.
unfoldable pub encrypted_range : Range → ℕ → Range
encrypted_range chunks total = record {
  start = mul_u64 chunks.start encrypted_chunk_size;
  end = min (mul_u64 chunks.end encrypted_chunk_size) total;
}

-- `content_range`: the range in the decrypted chunks.
unfoldable pub content_range : Range → Range → Range
content_range range chunks =
    let start = sub_u64 range.start (mul_u64 chunks.start chunk_size) in
    record { start = start; end = add_u64 start (sub_u64 range.end range.start) }
