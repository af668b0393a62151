-- ===== src/Core/Access/Rights.antt =====
-- The roles after each change of the rights, and what a role allows (core/src/access_control.cpp).
use collaborative_text_edito.Common.{
  ℕ, ◌^◌, ◌/◌, ◌<◌, ◌≡◌, ◌≢◌, ◌↔◌, ◌⊎◌, inl, inr, ap, ◌∙◌, arith, true, false, ◌&&◌, none, some,
  List, [], ◌∷◌, ◌==◌, if◌then◌else◌, u32,
}
use collaborative_text_edito.Common.Assoc.{nat_key, lookup, lookup-insert, lookup-erase}
use collaborative_text_edito.Core.Access.{
  Role, AccessControl, make_key, get_role, grant, revoke, revoke_all_for_document, erase_document,
  try_revoke, can_read, can_edit, can_share, can_delete,
}
use collaborative_text_edito.Core.Access.Keys.{make_key-parts, make_key-same}

lookup-erase_document :
    (doc key : ℕ) (rights : List (ℕ × Role))
    → lookup key (erase_document doc rights)
      ≡ (if u32 (key / 2 ^ 32) == doc then none else lookup key rights)
unfolding lookup erase_document
lookup-erase_document doc key [] = ground arith
lookup-erase_document doc key ((k, role) ∷ rights) =
    ground (arith, lookup-erase_document doc key rights)

module _ (ac : AccessControl) (doc user doc' user' : ℕ) (h : doc < 2 ^ 32) (k : user < 2 ^ 32)
    (h' : doc' < 2 ^ 32) (k' : user' < 2 ^ 32) where
  -- For 32-bit ids: `grant` gives the role to that user of that document, `revoke` takes it away,
  -- `revoke_all_for_document` takes away all roles for the document, and every other role stays.
  pub get_role-changes :
      (role : Role)
      → (get_role (grant ac doc user role) doc' user'
          ≡ (if (doc == doc') && (user == user') then some role else get_role ac doc' user'))
        × (get_role (revoke ac doc user) doc' user'
            ≡ (if (doc == doc') && (user == user') then none else get_role ac doc' user'))
        × (get_role (revoke_all_for_document ac doc) doc' user'
            ≡ (if doc == doc' then none else get_role ac doc' user'))
  unfolding get_role grant revoke revoke_all_for_document
  get_role-changes role =
      let same = make_key-same doc user doc' user' h k h' k' in
      (
        rw (← same) (lookup-insert (make_key doc user) (make_key doc' user') role ac.rights),
        rw (← same) (lookup-erase (make_key doc user) (make_key doc' user') ac.rights),
        ground (
          arith,
          lookup-erase_document doc (make_key doc' user') ac.rights,
          make_key-parts doc' user' h' k',
        ),
      )

-- To take away a role that is not there changes no role.
revoke_absent :
    (ac : AccessControl) (doc user d u : ℕ)
    → get_role ac doc user ≡ none
    → get_role (revoke ac doc user) d u ≡ get_role ac d u
unfolding get_role revoke
revoke_absent ac doc user d u h =
    ground (arith, lookup-erase (make_key doc user) (make_key d u) ac.rights)

outcome :
    (ac : AccessControl) (doc requester target : ℕ)
    → ((get_role ac doc requester ≡ some Role.owner)
        × (requester ≢ target)
        × (get_role ac doc target ≢ none)
        × (try_revoke ac doc requester target ≡ (revoke ac doc target, true)))
      ⊎ ((((get_role ac doc requester ≢ some Role.owner)
              ⊎ (requester ≡ target)
              ⊎ (get_role ac doc target ≡ none))
            × (try_revoke ac doc requester target ≡ (ac, false)))
          ⊎ ((get_role ac doc target ≡ none)
              × (try_revoke ac doc requester target ≡ (revoke ac doc target, false))))
unfolding try_revoke
outcome ac doc requester target = ground arith

-- Where the requester owns the document and the target is another user with a role, `try_revoke`
-- succeeds and does what `revoke` does; in every other case it fails and no role changes.
pub try_revoke_lem :
    (ac : AccessControl) (doc requester target : ℕ)
    → ((get_role ac doc requester ≡ some Role.owner)
        × (requester ≢ target)
        × (get_role ac doc target ≢ none)
        × (try_revoke ac doc requester target ≡ (revoke ac doc target, true)))
      ⊎ (((get_role ac doc requester ≢ some Role.owner)
            ⊎ (requester ≡ target)
            ⊎ (get_role ac doc target ≡ none))
          × ((try_revoke ac doc requester target).1 ≡ false)
          × ((d u : ℕ) → get_role (try_revoke ac doc requester target).0 d u ≡ get_role ac d u))
try_revoke_lem ac doc requester target = elim (outcome ac doc requester target) [
  | inl (a, b, c, e) ↦ inl (a, b, c, e)
  | inr (inl (why, e)) ↦ inr (why, ap (λ r. r.1) e, λ d u. ap (λ r. get_role r.0 d u) e)
  | inr (inr (absent, e)) ↦ inr (
    inr (inr absent),
    ap (λ r. r.1) e,
    λ d u. ap (λ r. get_role r.0 d u) e ∙ revoke_absent ac doc target d u absent,
  )
]

-- To delete and to share is the owner's; who may share may edit, and who may edit may read.
pub permissions :
    (ac : AccessControl) (doc user : ℕ)
    → ((can_delete ac doc user ≡ true) ↔ (get_role ac doc user ≡ some Role.owner))
      × (can_share ac doc user ≡ can_delete ac doc user)
      × ((can_edit ac doc user ≡ true)
          ↔ ((can_read ac doc user ≡ true) × (get_role ac doc user ≢ some Role.viewer)))
      × ((can_read ac doc user ≡ false) ↔ (get_role ac doc user ≡ none))
unfolding can_delete can_share can_edit can_read
permissions ac doc user = ground arith
