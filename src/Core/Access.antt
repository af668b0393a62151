-- ===== src/Core/Access.antt =====
-- core/include/collab/access_control.h, core/src/access_control.cpp: who may do what with which
-- document. The mutex makes each method one step.
mod Keys
pub mod Rights
pub mod Listing
use collaborative_text_edito.Common.{
  ℕ, ◌+◌, ◌*◌, ◌/◌, ◌%◌, ◌^◌, Bool, true, false, ◌||◌, Option, none, some, List, [], ◌∷◌, ◌==◌,
  if◌then◌else◌, u32,
}
use collaborative_text_edito.Common.Assoc.{lookup, insert, erase, nat_key}

pub data Role : Type 0 where
  owner editor viewer : Role

pub record AccessControl : Type 0 where
  pub rights : List (ℕ × Role)

-- `(uint64_t(docId) << 32) | userId`: the low 32 bits of the shifted value are 0, so the `or` is a
-- sum.
pub make_key : ℕ → ℕ → ℕ
make_key doc user = doc * 2 ^ 32 % 2 ^ 64 + user

unfoldable pub get_role : AccessControl → ℕ → ℕ → Option Role
unfolding make_key lookup
get_role ac doc user = lookup (make_key doc user) ac.rights

unfoldable pub grant : AccessControl → ℕ → ℕ → Role → AccessControl
unfolding make_key insert
grant ac doc user role = record ac { rights = insert (make_key doc user) role ac.rights }

unfoldable pub revoke : AccessControl → ℕ → ℕ → AccessControl
unfolding make_key erase
revoke ac doc user = record ac { rights = erase (make_key doc user) ac.rights }

-- The loop of `revoke_all_for_document`.
pub erase_document : ℕ → List (ℕ × Role) → List (ℕ × Role)
erase_document doc [] = []
erase_document doc ((key, role) ∷ rights) =
    if u32 (key / 2 ^ 32) == doc
    then erase_document doc rights
    else (key, role) ∷ erase_document doc rights

unfoldable pub revoke_all_for_document : AccessControl → ℕ → AccessControl
unfolding erase_document
revoke_all_for_document ac doc = record ac { rights = erase_document doc ac.rights }

abbrev pub is_owner : Option Role → Bool
is_owner none = false
is_owner (some Role.owner) = true
is_owner (some Role.editor) = false
is_owner (some Role.viewer) = false

abbrev pub is_editor : Option Role → Bool
is_editor none = false
is_editor (some Role.owner) = false
is_editor (some Role.editor) = true
is_editor (some Role.viewer) = false

abbrev pub has_value : Option Role → Bool
has_value none = false
has_value (some role) = true

unfoldable pub try_revoke : AccessControl → ℕ → ℕ → ℕ → AccessControl × Bool
unfolding get_role revoke
try_revoke ac doc requester target =
    if is_owner (get_role ac doc requester)
    then (if requester == target
        then (ac, false)
        else (revoke ac doc target, has_value (get_role ac doc target)))
    else (ac, false)

unfoldable pub can_read : AccessControl → ℕ → ℕ → Bool
unfolding get_role
can_read ac doc user = has_value (get_role ac doc user)

unfoldable pub can_edit : AccessControl → ℕ → ℕ → Bool
unfolding get_role
can_edit ac doc user = is_owner (get_role ac doc user) || is_editor (get_role ac doc user)

unfoldable pub can_share : AccessControl → ℕ → ℕ → Bool
unfolding get_role
can_share ac doc user = is_owner (get_role ac doc user)

unfoldable pub can_delete : AccessControl → ℕ → ℕ → Bool
unfolding get_role
can_delete ac doc user = is_owner (get_role ac doc user)

-- The loop of `list_documents_for_user`.
pub documents_of : ℕ → List (ℕ × Role) → List ℕ
documents_of user [] = []
documents_of user ((key, role) ∷ rights) =
    if key % 2 ^ 32 == user
    then u32 (key / 2 ^ 32) ∷ documents_of user rights
    else documents_of user rights

unfoldable pub list_documents_for_user : AccessControl → ℕ → List ℕ
unfolding documents_of
list_documents_for_user ac user = documents_of user ac.rights
