-- ===== src/Core/Access/Keys.antt =====
-- The 64-bit keys of the rights (core/src/access_control.cpp): a pair of 32-bit numbers and its key
-- determine each other.
use collaborative_text_edito.Common.{ℕ, ◌/◌, ◌%◌, ◌^◌, ◌<◌, ◌≡◌, arith, ◌&&◌, ◌==◌, u32}
use collaborative_text_edito.Core.Access.{make_key}

pub make_key-parts :
    (doc user : ℕ)
    → doc < 2 ^ 32
    → user < 2 ^ 32
    → (u32 (make_key doc user / 2 ^ 32) ≡ doc)
      × (make_key doc user % 2 ^ 32 ≡ user)
      × (make_key doc user < 2 ^ 64)
unfolding make_key
make_key-parts doc user h k = omega arith

pub make_key-same :
    (doc user doc' user' : ℕ)
    → doc < 2 ^ 32
    → user < 2 ^ 32
    → doc' < 2 ^ 32
    → user' < 2 ^ 32
    → (make_key doc user == make_key doc' user') ≡ ((doc == doc') && (user == user'))
unfolding make_key
make_key-same doc user doc' user' h k h' k' = ground arith

pub key-parts : (key : ℕ) → key < 2 ^ 64 → make_key (u32 (key / 2 ^ 32)) (key % 2 ^ 32) ≡ key
unfolding make_key
key-parts key h = omega arith
