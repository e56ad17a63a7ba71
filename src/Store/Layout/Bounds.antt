-- ===== src/Store/Layout/Bounds.antt =====
-- The ranges that `get` computes lie where they should.
use castella.Prelude.{ℕ, ◌+◌, ◌-◌, ◌*◌, ◌/◌, ◌^◌, ◌≤◌, ◌<◌, min, ◌≡◌, Option, none, some, arith}
use castella.Prelude.Ranges.{Range, RangeBounds}
use castella.Store.Cipher.{chunk_size, encrypted_chunk_size, tag_size}
use castella.Store.Layout.{
  encrypted_size, start_of, end_of, resolve_range, requested_range, chunk_range, encrypted_range,
  content_range,
}

-- The largest size whose chunk ids, and the end of their range, are u32s: just below 4 PiB.
abbrev pub max_size : ℕ
max_size = (2 ^ 32 - 1) * chunk_size

-- A range of a file: not empty, and not past its end.
pub record IsWithin (size : ℕ) (r : Range) : Type 0 where
  pub ordered : r.start < r.end
  pub inside : r.end ≤ size

-- A resolved range is the range that the bounds say, and lies within the file; bounds that say an empty
-- range or one that ends past the file are not resolved.
pub resolve_range-IsWithin :
    (range : RangeBounds) (size : ℕ) {r : Range}
    → resolve_range range size ≡ some r
    → IsWithin size r
      × (r.start ≡ start_of range.start_bound)
      × (r.end ≡ end_of range.end_bound size)
unfolding resolve_range
resolve_range-IsWithin range size h = ground arith

pub resolve_range-none :
    (range : RangeBounds) (size : ℕ)
    → resolve_range range size ≡ none
    → ¬ IsWithin size
        (record { start = start_of range.start_bound; end = end_of range.end_bound size })
unfolding resolve_range
resolve_range-none range size h w = ground arith

-- A resolved range is the one that is answered.
pub requested_range-resolved :
    (range : RangeBounds) (size start end : ℕ)
    → start_of range.start_bound ≡ start
    → end_of range.end_bound size ≡ end
    → start < end
    → end ≤ size
    → requested_range (some range) size ≡ record { start = start; end = end }
unfolding requested_range
requested_range-resolved range size start end e d h k = ground arith

-- Whatever range is requested of a file that is not empty, the range that is answered is not empty and
-- within the file.
pub requested_range-IsWithin :
    (range : Option RangeBounds) (size : ℕ) → 0 < size → IsWithin size (requested_range range size)
unfolding requested_range
requested_range-IsWithin none size h = omega arith
requested_range-IsWithin (some range) size h = ground arith

pub encrypted_size-exact :
    (size : ℕ)
    → size ≤ max_size
    → encrypted_size size ≡ size + ((size - 1) / chunk_size + 1) * tag_size
unfolding encrypted_size
encrypted_size-exact size h = omega arith

module _ (size : ℕ) (small : size ≤ max_size) (r : Range) (w : IsWithin size r) where
  pub chunk_range-exact :
      ((chunk_range r).start ≡ r.start / chunk_size)
      × ((chunk_range r).end ≡ (r.end - 1) / chunk_size + 1)
  unfolding chunk_range
  chunk_range-exact = omega arith

  abbrev first : ℕ
  first = r.start / chunk_size

  abbrev behind : ℕ
  behind = (r.end - 1) / chunk_size + 1

  pub encrypted_range-exact :
      (total : ℕ)
      → ((encrypted_range (chunk_range r) total).start ≡ first * encrypted_chunk_size)
        × ((encrypted_range (chunk_range r) total).end ≡ min (behind * encrypted_chunk_size) total)
  unfolding encrypted_range
  encrypted_range-exact total = omega (arith, chunk_range-exact)

  pub content_range-exact :
      ((content_range r (chunk_range r)).start ≡ r.start - first * chunk_size)
      × ((content_range r (chunk_range r)).end ≡ r.start - first * chunk_size + (r.end - r.start))
  unfolding content_range
  content_range-exact = omega (arith, chunk_range-exact)

  -- For a file of a size up to `max_size` and a range within it, the chunks that `get` asks for are the
  -- fewest that hold the range, the range of the encrypted file is not empty and within it, and the range
  -- of the decrypted stream is as long as the requested one and begins inside the first chunk.
  pub get_ranges_sound :
      let chunks = chunk_range r in
      let encrypted = encrypted_range chunks (encrypted_size size) in
      let content = content_range r chunks in
      (chunks.start * chunk_size ≤ r.start)
      × (r.start < (chunks.start + 1) * chunk_size)
      × (r.end ≤ chunks.end * chunk_size)
      × ((chunks.end - 1) * chunk_size < r.end)
      × (encrypted.start < encrypted.end)
      × (encrypted.end ≤ encrypted_size size)
      × (content.start < chunk_size)
      × (content.end - content.start ≡ r.end - r.start)
  get_ranges_sound =
      let total = encrypted_size-exact size small in
      let chunks = chunk_range-exact in
      let encrypted = encrypted_range-exact (encrypted_size size) in
      let content = content_range-exact in
      (
        omega (arith, chunks),
        omega (arith, chunks),
        omega (arith, chunks),
        omega (arith, chunks),
        omega (arith, encrypted, total),
        omega (arith, encrypted, total),
        omega (arith, content),
        omega (arith, content),
      )
