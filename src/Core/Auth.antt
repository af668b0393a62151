-- ===== src/Core/Auth.antt =====
-- core/include/collab/auth_manager.h, core/src/auth_manager.cpp: the registered users. The mutex
-- makes each method one step; the salt's random bytes are an argument.
pub mod Accounts
use collaborative_text_edito.Common.{
  ℕ, ◌+◌, Bool, true, false, Option, none, some, List, [], ◌∷◌, Bytes, bytes, if◌then◌else◌, add32,
}
use collaborative_text_edito.Common.Assoc.{bytes_key, lookup, insert}
use collaborative_text_edito.Core.Operation.{empty}
use collaborative_text_edito.Core.Hash.{Digest, generate_salt, hash_password, verify_password}

pub record AuthResult : Type 0 where
  pub success : Bool
  pub user_id : ℕ
  pub error : Bytes

pub record UserRecord : Type 0 where
  pub id : ℕ
  pub username : Bytes
  pub password_hash : Bytes
  pub salt : Bytes

pub record AuthManager : Type 0 where
  pub users : List (Bytes × UserRecord)
  pub next_id : ℕ

abbrev pub init : AuthManager
init = record { users = []; next_id = 1 }

abbrev pub failed : Bytes → AuthResult
failed error = record { success = false; user_id = 0; error = error }

abbrev pub succeeded : ℕ → AuthResult
succeeded id = record { success = true; user_id = id; error = [] }

module _ (digest : Digest) where
  pub new_record : AuthManager → Bytes → Bytes → List ℕ → UserRecord
  new_record am username password random =
      let salt = generate_salt random in
      record {
        id = am.next_id;
        username = username;
        password_hash = hash_password digest password salt;
        salt = salt;
      }

  -- `register_user` behind its guards.
  unfoldable pub add_user : AuthManager → Bytes → Bytes → List ℕ → AuthManager × AuthResult
  add_user am username password random = (
    record am {
      users = insert username (new_record am username password random) am.users;
      next_id = add32 am.next_id 1;
    },
    succeeded am.next_id,
  )

  unfoldable pub register_user : AuthManager → Bytes → Bytes → List ℕ → AuthManager × AuthResult
  register_user am username password random =
      if empty username
      then (am, failed (bytes "empty_username"))
      else if empty password
      then (am, failed (bytes "empty_password"))
      else elim (lookup username am.users) [
        | some user ↦ (am, failed (bytes "duplicate_username"))
        | none ↦ add_user am username password random
      ]

  unfoldable pub login : AuthManager → Bytes → Bytes → AuthResult
  login am username password = elim (lookup username am.users) [
    | none ↦ failed (bytes "invalid_credentials")
    | some user ↦
        if verify_password digest password user.salt user.password_hash
        then succeeded user.id
        else failed (bytes "invalid_credentials")
  ]

unfoldable pub get_stored_hash : AuthManager → Bytes → Bytes
get_stored_hash am username = elim (lookup username am.users) [
  | none ↦ []
  | some user ↦ user.password_hash
]

unfoldable pub find_user_id : AuthManager → Bytes → Option ℕ
find_user_id am username = elim (lookup username am.users) [
  | none ↦ none
  | some user ↦ some user.id
]
