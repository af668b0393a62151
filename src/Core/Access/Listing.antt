-- ===== src/Core/Access/Listing.antt =====
-- The documents that a user may open (`list_documents_for_user` of core/src/access_control.cpp).
use collaborative_text_edito.Common.{
  ℕ, ◌^◌, ◌/◌, ◌%◌, ◌<◌, ◌≡◌, ◌↔◌, refl, arith, Bool, false, ◌||◌, List, [], ◌∷◌, ◌==◌, u32,
}
use collaborative_text_edito.Common.Assoc.{nat_key, lookup, insert, erase}
use collaborative_text_edito.Core.Access.{
  Role, AccessControl, make_key, grant, has_value, can_read, documents_of, list_documents_for_user,
  erase_document, revoke_all_for_document, revoke,
}
use collaborative_text_edito.Core.Access.Keys.{make_key-parts}

-- Every key is a 64-bit number.
abbrev pub InRange : List (ℕ × Role) → Type 0
InRange [] = Unit {0}
InRange ((key, role) ∷ rights) = (key < 2 ^ 64) × InRange rights

pub listed : ℕ → List ℕ → Bool
listed doc [] = false
listed doc (d ∷ docs) = (d == doc) || listed doc docs

key_matches :
    (key doc user : ℕ)
    → key < 2 ^ 64
    → doc < 2 ^ 32
    → user < 2 ^ 32
    → (make_key doc user ≡ key) ↔ ((u32 (key / 2 ^ 32) ≡ doc) × (key % 2 ^ 32 ≡ user))
unfolding make_key
key_matches key doc user h k k' = (λ e. (omega arith, omega arith), λ e. omega arith)

documents_of-listed :
    (doc user : ℕ) (rights : List (ℕ × Role))
    → doc < 2 ^ 32
    → user < 2 ^ 32
    → InRange rights
    → listed doc (documents_of user rights) ≡ has_value (lookup (make_key doc user) rights)
unfolding listed documents_of lookup
documents_of-listed doc user [] h k r = refl
documents_of-listed doc user ((key, role) ∷ rights) h k r =
    ground (arith, documents_of-listed doc user rights h k r.1, key_matches key doc user r.0 h k)

InRange-insert :
    (key : ℕ) (role : Role) (rights : List (ℕ × Role))
    → key < 2 ^ 64
    → InRange rights
    → InRange (insert key role rights)
unfolding insert
InRange-insert key role [] h r = (h, tt)
InRange-insert key role ((k, v) ∷ rights) h r = ground (arith, InRange-insert key role rights h r.1)

InRange-erase : (key : ℕ) (rights : List (ℕ × Role)) → InRange rights → InRange (erase key rights)
unfolding erase
InRange-erase key [] r = tt
InRange-erase key ((k, v) ∷ rights) r = ground (arith, InRange-erase key rights r.1)

InRange-erase_document :
    (doc : ℕ) (rights : List (ℕ × Role)) → InRange rights → InRange (erase_document doc rights)
unfolding erase_document
InRange-erase_document doc [] r = tt
InRange-erase_document doc ((k, v) ∷ rights) r =
    ground (arith, InRange-erase_document doc rights r.1)

-- With 32-bit ids the keys stay 64-bit numbers.
pub changes-InRange :
    (ac : AccessControl) (doc user : ℕ) (role : Role)
    → doc < 2 ^ 32
    → user < 2 ^ 32
    → InRange ac.rights
    → InRange (grant ac doc user role).rights
      × InRange (revoke ac doc user).rights
      × InRange (revoke_all_for_document ac doc).rights
unfolding grant revoke revoke_all_for_document
changes-InRange ac doc user role h k r = (
  InRange-insert (make_key doc user) role ac.rights (make_key-parts doc user h k).2 r,
  InRange-erase (make_key doc user) ac.rights r,
  InRange-erase_document doc ac.rights r,
)

-- A user's list names a document exactly when the user may read it.
pub list_documents-can_read :
    (ac : AccessControl) (doc user : ℕ)
    → doc < 2 ^ 32
    → user < 2 ^ 32
    → InRange ac.rights
    → listed doc (list_documents_for_user ac user) ≡ can_read ac doc user
unfolding list_documents_for_user can_read
list_documents-can_read ac doc user h k r = documents_of-listed doc user ac.rights h k r
