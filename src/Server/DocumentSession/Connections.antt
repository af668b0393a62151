-- ===== src/Server/DocumentSession/Connections.antt =====
-- Through which client session a user is connected to a document session
-- (server/src/document_session.cpp).
use collaborative_text_edito.Common.{
  ℕ, ◌≡◌, refl, ◌∙◌, arith, Bool, true, ==_iff, ==_refl, List, [], ◌∷◌,
}
use collaborative_text_edito.Common.Assoc.{nat_key, insert}
use collaborative_text_edito.Server.DocumentSession.{
  ConnectedUser, DocCommand, DocumentSession, handle_join,
}
use collaborative_text_edito.Server.DocumentSession.Delivery.{inbox, users_of, broadcast_one}

pub users_of-join :
    (users : List (ℕ × ConnectedUser)) (u k : ℕ) (user : ConnectedUser)
    → user.session ≡ k
    → users_of k users ≡ []
    → users_of k (insert u user users) ≡ u ∷ []
unfolding users_of insert
users_of-join [] u k user n e = ground (arith, ==_iff user.session k)
users_of-join ((w, x) ∷ users) u k user n e =
    ground (arith, ==_iff user.session k, users_of-join users u k user n)

-- Who joins is not told of his own arrival.
pub join-silent :
    (alive : ℕ → Bool) (s : DocumentSession) (join : DocCommand)
    → alive join.session ≡ true
    → users_of join.session s.connected_users ≡ []
    → inbox join.session (handle_join alive s join).1 ≡ []
unfolding handle_join
join-silent alive s join a e =
    let newcomer : ConnectedUser = record {
      user_id = join.user_id;
      username = join.username;
      color = join.color;
      session = join.session;
    } in
    broadcast_one alive (insert join.user_id newcomer s.connected_users) _ join.user_id join.user_id
      join.session a (users_of-join s.connected_users join.user_id join.session newcomer refl e)
    ∙ rw (==_refl join.user_id) refl
