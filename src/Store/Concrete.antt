-- ===== src/Store/Concrete.antt =====
-- A value of the interface `Aead`, which shows that its laws can hold together: the tag is 16 bytes
-- that the nonce determines, and decryption checks it.
use castella.Prelude.{
  ℕ, suc, ◌+◌, ◌-◌, ◌≡◌, refl, ap, [], ◌∷◌, ◌++◌, Result, ok, err, Bytes, Bool, true, false, ◌&&◌,
  length, take, drop, length-append, take-append_eq, drop-append_eq, if◌then◌else◌, ◌==◌, arith,
}
use castella.Store.Cipher.{Aead, AeadError, opaque, tag_size}

bytes_eq : Bytes → Bytes → Bool
bytes_eq [] [] = true
bytes_eq (x ∷ xs) (y ∷ ys) = (x == y) && bytes_eq xs ys
bytes_eq _ _ = false

bytes_eq_refl : (b : Bytes) → bytes_eq b b ≡ true
unfolding bytes_eq
bytes_eq_refl [] = refl
bytes_eq_refl (x ∷ b) = ground (arith, bytes_eq_refl b)

-- The last 16 bytes of a nonce, filled up.
pad : ℕ → Bytes → Bytes
pad ℕ.zero b = []
pad (suc n) [] = 0 ∷ pad n []
pad (suc n) (x ∷ b) = x ∷ pad n b

length-pad : (n : ℕ) (b : Bytes) → length (pad n b) ≡ n
unfolding pad
length-pad ℕ.zero b = refl
length-pad (suc n) [] = ap suc (length-pad n [])
length-pad (suc n) (x ∷ b) = ap suc (length-pad n b)

tag : Bytes → Bytes
unfolding pad
tag nonce = pad 16 (drop 8 nonce)

length-tag : (nonce : Bytes) → length (tag nonce) ≡ 16
unfolding tag
length-tag nonce = length-pad 16 (drop 8 nonce)

pub toy_sealed : Bytes → Bytes → Bytes → Bytes
toy_sealed key nonce message = message ++ tag nonce

pub toy_decrypt : Bytes → Bytes → Bytes → Result AeadError Bytes
unfolding bytes_eq
toy_decrypt key nonce message =
    let size = length message - 16 in
    if bytes_eq (drop size message) (tag nonce) then ok (take size message) else err opaque

pub length-toy_sealed :
    (key nonce message : Bytes) → length (toy_sealed key nonce message) ≡ length message + tag_size
unfolding toy_sealed
length-toy_sealed key nonce message =
    omega (arith, length-append message (tag nonce), length-tag nonce)

toy_decrypt-append :
    (key nonce message : Bytes) → toy_decrypt key nonce (message ++ tag nonce) ≡ ok message
unfolding toy_decrypt
toy_decrypt-append key nonce message =
    let e : length (message ++ tag nonce) - 16 ≡ length message =
      omega (arith, length-append message (tag nonce), length-tag nonce) in
    rw
      (
        e,
        drop-append_eq (length message) message (tag nonce) refl,
        take-append_eq (length message) message (tag nonce) refl,
        bytes_eq_refl (tag nonce),
      )
      refl

pub toy_decrypt-toy_sealed :
    (key nonce message : Bytes) → toy_decrypt key nonce (toy_sealed key nonce message) ≡ ok message
unfolding toy_sealed
toy_decrypt-toy_sealed = toy_decrypt-append

unfoldable pub toy_aead : Aead
unfolding toy_sealed toy_decrypt tag
toy_aead = record {
  encrypt = λ key nonce message. ok (toy_sealed key nonce message);
  decrypt = toy_decrypt;
  sealed = toy_sealed;
  encrypt_lem = λ key nonce message h. refl;
  length-sealed = length-toy_sealed;
  decrypt-sealed = λ key nonce message h. toy_decrypt-toy_sealed key nonce message;
}
