-- ===== src/Drive/Upload.antt =====
-- The body of an upload, and the length that is announced for it.
use castella.Prelude.{
  ℕ, ◌+◌, ◌<◌, ◌≡◌, refl, ap, sym, ◌∙◌, [], ◌∷◌, ◌++◌, none, ok, err, Bytes, length, length-append,
  append_assoc, append-nil, arith,
}
use castella.Prelude.Words.{u64_mod}
use castella.Text.{Text}
use castella.Stream.Flow.{Stream, bytes_of, failure}
use castella.Stream.Library.{Futures}
use castella.Stream.Bandwidth.{BandwidthLimiter, throttle_stream}
use castella.Stream.Bandwidth.Passing.{throttle_stream_transparent}
use castella.Drive.{multipart_prefix, multipart_suffix, multipart_length, multipart_body}

module _ {B : Type 0} where
  bytes_of-append :
      (s t : Stream B Bytes) → failure s ≡ none → bytes_of (s ++ t) ≡ bytes_of s ++ bytes_of t
  bytes_of-append [] t h = refl
  bytes_of-append (ok b ∷ s) t h =
      ap (λ r. b ++ r) (bytes_of-append s t h) ∙ sym (append_assoc b (bytes_of s) (bytes_of t))
  bytes_of-append (err e ∷ s) t h = cc

  failure-append : (s t : Stream B Bytes) → failure s ≡ none → failure (s ++ t) ≡ failure t
  failure-append [] t h = refl
  failure-append (ok b ∷ s) t h = failure-append s t h
  failure-append (err e ∷ s) t h = cc

  module _ (futures : Futures) (boundary : Text) (meta : Bytes) (content : Stream B Bytes) where
    body_lem :
        multipart_body futures boundary meta content
        ≡ ok (multipart_prefix boundary meta) ∷ (content ++ ok (multipart_suffix boundary) ∷ [])
    unfolding multipart_body
    body_lem = rw (futures.chain_lem, futures.chain_lem, futures.once_lem, futures.once_lem) refl

    -- Where the media has the announced size, ends without an error, and the whole is shorter than 2 ^ 64
    -- bytes: the throttled body ends without an error, its bytes are the prefix, the media and the suffix,
    -- and its length is the announced `content-length`.
    pub multipart_length-exact :
        (limiter : BandwidthLimiter) (size : ℕ)
        → length (bytes_of content) ≡ size
        → failure content ≡ none
        → length (multipart_prefix boundary meta) + size + length (multipart_suffix boundary)
          < u64_mod
        → let body =
            throttle_stream futures (multipart_body futures boundary meta content) limiter in
          (failure body ≡ none)
          × (bytes_of body
              ≡ multipart_prefix boundary meta ++ (bytes_of content ++ multipart_suffix boundary))
          × (length (bytes_of body) ≡ multipart_length boundary meta size)
    unfolding multipart_length
    multipart_length-exact limiter size e h small =
        let passed =
          throttle_stream_transparent futures (multipart_body futures boundary meta content)
            limiter in
        let bytes =
          passed.2
          ∙ ap bytes_of body_lem
          ∙ ap (λ r. multipart_prefix boundary meta ++ r)
              (bytes_of-append content (ok (multipart_suffix boundary) ∷ []) h
                ∙ ap (λ r. bytes_of content ++ r) (append-nil (multipart_suffix boundary))) in
        (
          passed.3
              ∙ ap failure body_lem
              ∙ failure-append content (ok (multipart_suffix boundary) ∷ []) h,
          bytes,
          omega (
            arith,
            ap length bytes,
            length-append (multipart_prefix boundary meta)
                (bytes_of content ++ multipart_suffix boundary),
            length-append (bytes_of content) (multipart_suffix boundary),
            e,
          ),
        )
