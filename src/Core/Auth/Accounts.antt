-- ===== src/Core/Auth/Accounts.antt =====
-- Registration and login together (core/src/auth_manager.cpp).
use collaborative_text_edito.Common.{
  ℕ, ◌+◌, ◌^◌, ◌<◌, ◌≡◌, ◌≢◌, ◌↔◌, ◌⊎◌, arith, true, false, inl, inr, none, some, List, ◌++◌, Bytes,
  bytes, bytes_eq, bytes_eq_iff, if◌then◌else◌,
}
use collaborative_text_edito.Common.Assoc.{bytes_key, lookup, lookup-insert}
use collaborative_text_edito.Core.Operation.{empty}
use collaborative_text_edito.Core.Hash.{
  Digest, AllBytes, generate_salt, hash_password, verify_password, verify-hash,
}
use collaborative_text_edito.Core.Auth.{
  AuthResult, AuthManager, init, new_record, add_user, failed, succeeded, register_user, login,
  find_user_id,
}

-- Ids are handed out in order, so no two users share one, and none is 0.
pub record IsValid (am : AuthManager) : Type 0 where
  pub positive : 0 < am.next_id
  pub below :
      (name : Bytes) (id : ℕ) → find_user_id am name ≡ some id → (0 < id) × (id < am.next_id)
  pub unique :
      (name other : Bytes) (id : ℕ)
      → find_user_id am name ≡ some id
      → find_user_id am other ≡ some id
      → name ≡ other

-- Nobody is registered at first.
pub init-IsValid : IsValid init
unfolding find_user_id lookup
init-IsValid = record {
  positive = omega arith;
  below = λ name id e. cc;
  unique = λ name other id e e'. cc;
}

module _ (digest : Digest) (am : AuthManager) (username password : Bytes) (random : List ℕ) where
  abbrev added : AuthManager
  added = (add_user digest am username password random).0

  lookup-add :
      (name : Bytes)
      → lookup name added.users ≡ (
          if bytes_eq username name
          then some (new_record digest am username password random)
          else lookup name am.users)
  unfolding add_user
  lookup-add name = lookup-insert username name _ am.users

  find-add :
      (name : Bytes)
      → find_user_id added name
        ≡ (if bytes_eq username name then some am.next_id else find_user_id am name)
  unfolding find_user_id new_record
  find-add name = ground (arith, lookup-add name)

  added-below :
      IsValid am
      → am.next_id + 1 < 2 ^ 32
      → (name : Bytes) (id : ℕ) → find_user_id added name ≡ some id
      → (0 < id) × (id < added.next_id)
  unfolding add_user
  added-below v h name id e = ground (arith, find-add name, v.positive, v.below name id)

  added_unique :
      IsValid am
      → am.next_id + 1 < 2 ^ 32
      → (name other : Bytes) (id : ℕ) → find_user_id added name ≡ some id
      → find_user_id added other ≡ some id
      → name ≡ other
  added_unique v h name other id e e' = ground (
    arith,
    find-add name,
    find-add other,
    v.below name id,
    v.below other id,
    v.unique name other id,
    bytes_eq_iff username name,
    bytes_eq_iff username other,
  )

  add-IsValid : IsValid am → am.next_id + 1 < 2 ^ 32 → IsValid added
  add-IsValid v h = record {
    positive = (unfold add_user in omega arith);
    below = added-below v h;
    unique = added_unique v h;
  }

  abbrev registered : AuthManager × AuthResult
  registered = register_user digest am username password random

  -- A registration fails, with the reason and without a change, exactly for an empty name, an empty
  -- password or a name that is taken; otherwise it returns the next id.
  pub register_user-branches :
      ((empty username ≡ true) × (registered ≡ (am, failed (bytes "empty_username"))))
      ⊎ ((empty username ≡ false)
          × (empty password ≡ true)
          × (registered ≡ (am, failed (bytes "empty_password"))))
      ⊎ ((empty username ≡ false)
          × (empty password ≡ false)
          × (find_user_id am username ≢ none)
          × (registered ≡ (am, failed (bytes "duplicate_username"))))
      ⊎ ((empty username ≡ false)
          × (empty password ≡ false)
          × (find_user_id am username ≡ none)
          × (registered ≡ (added, succeeded am.next_id)))
  unfolding register_user find_user_id add_user
  register_user-branches = ground arith

  -- Short of 2 ^ 32 users a registration, also one that fails, keeps the ids unique and positive.
  pub register_user-IsValid : IsValid am → am.next_id + 1 < 2 ^ 32 → IsValid registered.0
  register_user-IsValid v h = elim register_user-branches [
    | inl (_, e) ↦ rw e v
    | inr (inl (_, _, e)) ↦ rw e v
    | inr (inr (inl (_, _, _, e))) ↦ rw e v
    | inr (inr (inr (_, _, _, e))) ↦ rw e (add-IsValid v h)
  ]

  registered_ok : registered.1.success ≡ true → registered ≡ (added, succeeded am.next_id)
  registered_ok ok = elim register_user-branches [
    | inl (_, e) ↦ cc
    | inr (inl (_, _, e)) ↦ cc
    | inr (inr (inl (_, _, _, e))) ↦ cc
    | inr (inr (inr (_, _, _, e))) ↦ e
  ]

  login-add_self :
      (q : Bytes)
      → login digest added username q ≡ (
          if verify_password digest q
            (generate_salt random)
            (hash_password digest password (generate_salt random))
          then succeeded am.next_id
          else failed (bytes "invalid_credentials"))
  unfolding login new_record
  login-add_self q = ground (arith, lookup-add username, bytes_eq_iff username username)

  login-add_other :
      (other p : Bytes) → username ≢ other → login digest added other p ≡ login digest am other p
  unfolding login
  login-add_other other p h = ground (arith, lookup-add other, bytes_eq_iff username other)

  -- After a successful registration the new user's login with a password succeeds, with the id of
  -- the registration, exactly if the salted digest is that of the registered password, and else it
  -- fails with `invalid_credentials`; a login by any other name has the result that it had before.
  -- The digest is assumed to consist of bytes.
  pub login-register_user :
      (q other p : Bytes)
      → ((x : Bytes) → AllBytes (digest.cc_sha256 x))
      → registered.1.success ≡ true
      → username ≢ other
      → ((login digest registered.0 username q ≡ succeeded registered.1.user_id) ↔ (
          digest.cc_sha256 (generate_salt random ++ q)
          ≡ digest.cc_sha256 (generate_salt random ++ password)))
        × ((login digest registered.0 username q ≡ failed (bytes "invalid_credentials")) ↔ (
            digest.cc_sha256 (generate_salt random ++ q)
            ≢ digest.cc_sha256 (generate_salt random ++ password)))
        × (login digest registered.0 other p ≡ login digest am other p)
  login-register_user q other p all ok h =
      let accept = verify-hash digest password q (generate_salt random) all in
      rw (registered_ok ok, login-add_self q)
        (ground (arith, accept), ground (arith, accept), login-add_other other p h)
