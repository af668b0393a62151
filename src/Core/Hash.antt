-- ===== src/Core/Hash.antt =====
-- core/include/collab/hash_utils.h, core/src/hash_utils.cpp: salted password hashes. The digest
-- `CC_SHA256` of CommonCrypto and the random bytes of `arc4random_buf` are parameters.
use collaborative_text_edito.Common.{
  ℕ, ◌+◌, ◌-◌, ◌/◌, ◌%◌, ◌<◌, ◌≡◌, ◌↔◌, refl, ap, arith, Bool, true, List, [], ◌∷◌, ◌++◌, Bytes,
  bytes_eq, bytes_eq_iff, ltb, if◌then◌else◌,
}

-- A hexadecimal digit, in lower case.
abbrev hex_digit : ℕ → ℕ
hex_digit n = if ltb n 10 then b'0' + n else b'a' + (n - 10)

-- The loop over the bytes with `std::format("{:02x}", byte)`.
pub to_hex : List ℕ → Bytes
to_hex [] = []
to_hex (b ∷ bs) = hex_digit (b / 16) ∷ hex_digit (b % 16) ∷ to_hex bs

-- `generate_salt`, on the bytes that `arc4random_buf` delivers.
unfoldable pub generate_salt : List ℕ → Bytes
unfolding to_hex
generate_salt random = to_hex random

-- `CC_SHA256` returns bytes.
pub record Digest : Type 0 where
  pub cc_sha256 : Bytes → List ℕ

unfoldable pub AllBytes : List ℕ → Type 0
AllBytes [] = Unit
AllBytes (b ∷ bs) = (b < 256) × AllBytes bs

to_hex-injective : (xs ys : List ℕ) → AllBytes xs → AllBytes ys → to_hex xs ≡ to_hex ys → xs ≡ ys
unfolding to_hex AllBytes
to_hex-injective [] [] p q e = refl
to_hex-injective [] (y ∷ ys) p q e = cc
to_hex-injective (x ∷ xs) [] p q e = cc
to_hex-injective (x ∷ xs) (y ∷ ys) p q e = ground (arith, to_hex-injective xs ys p.1 q.1)

module _ (digest : Digest) where
  open digest use {cc_sha256}

  unfoldable pub sha256_hex : Bytes → Bytes
  unfolding to_hex
  sha256_hex input = to_hex (cc_sha256 input)

  unfoldable pub hash_password : Bytes → Bytes → Bytes
  unfolding sha256_hex
  hash_password password salt = sha256_hex (salt ++ password)

  unfoldable pub verify_password : Bytes → Bytes → Bytes → Bool
  unfolding hash_password
  verify_password password salt expected = bytes_eq (hash_password password salt) expected

  -- Where the digest consists of bytes, a password is accepted against the hash of another one with
  -- the same salt exactly when the digests of the two salted passwords agree.
  pub verify-hash :
      (p q salt : Bytes)
      → ((x : Bytes) → AllBytes (cc_sha256 x))
      → (verify_password q salt (hash_password p salt) ≡ true)
        ↔ (cc_sha256 (salt ++ q) ≡ cc_sha256 (salt ++ p))
  unfolding verify_password
  verify-hash p q salt all = (
    λ e. to_hex-injective _ _ (all (salt ++ q)) (all (salt ++ p)) ((bytes_eq_iff _ _).0 e),
    λ e. (bytes_eq_iff _ _).1 (ap to_hex e),
  )
