-- ===== src/Server/MessageHandler/Sharing.antt =====
-- What sharing does to the roles (server/src/message_handler.cpp with core/src/access_control.cpp).
use collaborative_text_edito.Common.{
  ℕ, ◌^◌, ◌<◌, ◌≡◌, ◌≢◌, ap, arith, ◌⊎◌, inl, inr, true, ==_iff, Option, some, Option-cases, Bytes,
}
use collaborative_text_edito.Core.Access.{Role, AccessControl, get_role, grant, revoke, can_share}
use collaborative_text_edito.Core.Access.Rights.{get_role-changes}
use collaborative_text_edito.Core.Auth.{find_user_id}
use collaborative_text_edito.Protocol.Messages.{DocShareRequestMsg}
use collaborative_text_edito.Server.MessageHandler.{World, Surroundings, send_error}
use collaborative_text_edito.Server.MessageHandler.Editing.{handle_doc_share}

send_error-access :
    (w : World) (code message : Bytes)
    → (send_error w code message).0.manager.access ≡ w.manager.access
unfolding send_error
send_error-access w code message = ground arith

module _ (around : Surroundings) (w : World) (msg : DocShareRequestMsg) where
  abbrev after : AccessControl
  after = (handle_doc_share around w msg).0.manager.access

  share_cases :
      (after ≡ w.manager.access)
      ⊎ ((t : ℕ) × (find_user_id w.auth msg.target_username ≡ some t)
          × (can_share w.manager.access msg.doc_id w.session.user_id ≡ true)
          × (t ≢ w.session.user_id)
          × ((after ≡ revoke w.manager.access msg.doc_id t)
              ⊎ (after ≡ grant w.manager.access msg.doc_id t Role.editor)
              ⊎ (after ≡ grant w.manager.access msg.doc_id t Role.viewer)))
  unfolding handle_doc_share
  share_cases = elim (Option-cases (find_user_id w.auth msg.target_username)) [
    | inl e ↦ inl (ground (arith, e, send_error-access w))
    | inr (t, e) ↦ ground (arith, e, send_error-access w, ==_iff t w.session.user_id)
  ]

not_owner_after :
    (ac : AccessControl) (doc t d u : ℕ) (role : Role)
    → doc < 2 ^ 32
    → t < 2 ^ 32
    → d < 2 ^ 32
    → u < 2 ^ 32
    → role ≢ Role.owner
    → ((get_role (grant ac doc t role) d u ≡ get_role ac d u)
        ⊎ ((d ≡ doc) × (u ≡ t) × (get_role (grant ac doc t role) d u ≢ some Role.owner)))
      × ((get_role (revoke ac doc t) d u ≡ get_role ac d u)
          ⊎ ((d ≡ doc) × (u ≡ t) × (get_role (revoke ac doc t) d u ≢ some Role.owner)))
not_owner_after ac doc t d u role i j k l n =
    let (granted, revoked, _) = get_role-changes ac doc t d u i j k l role in
    ground (arith, granted, revoked, n, ==_iff doc d, ==_iff t u)

-- A request to share changes no role but that of one other user in one document: the user that the
-- request names, in the document that it names, if whoever asks owns that document; and it makes
-- nobody an owner.
pub handle_doc_share-roles :
    (around : Surroundings) (w : World) (msg : DocShareRequestMsg) (d u : ℕ)
    → msg.doc_id < 2 ^ 32
    → ((t : ℕ) → find_user_id w.auth msg.target_username ≡ some t → t < 2 ^ 32)
    → d < 2 ^ 32
    → u < 2 ^ 32
    → (get_role (handle_doc_share around w msg).0.manager.access d u
        ≡ get_role w.manager.access d u)
      ⊎ ((d ≡ msg.doc_id)
          × (find_user_id w.auth msg.target_username ≡ some u)
          × (u ≢ w.session.user_id)
          × (can_share w.manager.access msg.doc_id w.session.user_id ≡ true)
          × (get_role (handle_doc_share around w msg).0.manager.access d u ≢ some Role.owner))
handle_doc_share-roles around w msg d u i b k l = elim (share_cases around w msg) [
  | inl e ↦ inl (ap (λ ac. get_role ac d u) e)
  | inr (t, e, may, other, how) ↦
      let after = (handle_doc_share around w msg).0.manager.access in
      let editor =
        not_owner_after w.manager.access msg.doc_id t d u Role.editor i (b t e) k l (λ x. cc) in
      let viewer =
        not_owner_after w.manager.access msg.doc_id t d u Role.viewer i (b t e) k l (λ x. cc) in
      let role : AccessControl → Option Role = λ ac. get_role ac d u in
      ground (arith, e, may, other, editor, viewer, how, ap role)
]
