-- ===== src/Server/DocumentSession/Delivery.antt =====
-- Who gets which message of a document session (server/src/document_session.cpp).
use collaborative_text_edito.Common.{
  ℕ, ◌≡◌, ◌≢◌, refl, ap, ◌∙◌, arith, Bool, true, false, Bool-cases, ◌==◌, ==_iff, none, some,
  Option-cases, inl, inr, List, [], ◌∷◌, ◌++◌, append-nil, bytes, if◌then◌else◌,
}
use collaborative_text_edito.Common.Assoc.{nat_key, lookup}
use collaborative_text_edito.Core.Operation.{Operation}
use collaborative_text_edito.Core.Document.{Document, OtResult, apply_with_ot}
use collaborative_text_edito.Server.DocumentSession.{
  ConnectedUser, DocCommand, DocumentSession, Payload, Send, operation_ack, operation_broadcast,
  error, entry_of, send, broadcast, send_to_user, handle_operation,
}

-- What a client session is sent, in its order.
unfoldable pub inbox : ℕ → List Send → List Payload
inbox k [] = []
inbox k (x ∷ xs) = if x.session == k then x.payload ∷ inbox k xs else inbox k xs

pub inbox-append : (k : ℕ) (xs ys : List Send) → inbox k (xs ++ ys) ≡ inbox k xs ++ inbox k ys
unfolding inbox
inbox-append k [] ys = refl
inbox-append k (x ∷ xs) ys = ground (arith, inbox-append k xs ys)

-- The users who are connected through a client session.
unfoldable pub users_of : ℕ → List (ℕ × ConnectedUser) → List ℕ
users_of k [] = []
users_of k ((user_id, user) ∷ users) =
    if user.session == k then user_id ∷ users_of k users else users_of k users

-- The user is connected through that client session, and nobody else is.
pub record Connected (users : List (ℕ × ConnectedUser)) (u k : ℕ) : Type 0 where
  pub user : ConnectedUser
  pub found : lookup u users ≡ some user
  pub through : user.session ≡ k
  pub only : users_of k users ≡ u ∷ []

module _ (alive : ℕ → Bool) where
  inbox-send :
      (k j : ℕ) (p : Payload)
      → alive k ≡ true
      → inbox k (send alive j p) ≡ (if j == k then p ∷ [] else [])
  unfolding inbox send
  inbox-send k j p a = ground (arith, ==_iff j k)

  pub broadcast_nobody :
      (users : List (ℕ × ConnectedUser)) (p : Payload) (ex k : ℕ)
      → users_of k users ≡ []
      → inbox k (broadcast alive users p ex) ≡ []
  unfolding inbox broadcast users_of send
  broadcast_nobody [] p ex k e = refl
  broadcast_nobody ((v, user) ∷ users) p ex k e = ground (arith, broadcast_nobody users p ex k)

  pub broadcast_one :
      (users : List (ℕ × ConnectedUser)) (p : Payload) (ex u k : ℕ)
      → alive k ≡ true
      → users_of k users ≡ u ∷ []
      → inbox k (broadcast alive users p ex) ≡ (if u == ex then [] else p ∷ [])
  unfolding inbox broadcast users_of send
  broadcast_one [] p ex u k a e = cc
  broadcast_one ((v, user) ∷ users) p ex u k a e =
      ground (arith, broadcast_one users p ex u k a, broadcast_nobody users p ex k)

lookup-nobody :
    (users : List (ℕ × ConnectedUser)) (a k : ℕ) (user : ConnectedUser)
    → users_of k users ≡ []
    → lookup a users ≡ some user
    → user.session ≢ k
unfolding users_of lookup
lookup-nobody [] a k user e f = cc
lookup-nobody ((v, w) ∷ users) a k user e f = ground (arith, lookup-nobody users a k user)

lookup-only :
    (users : List (ℕ × ConnectedUser)) (a u k : ℕ) (user : ConnectedUser)
    → users_of k users ≡ u ∷ []
    → lookup a users ≡ some user
    → user.session ≡ k
    → a ≡ u
unfolding users_of lookup
lookup-only [] a u k user e f g = cc
lookup-only ((v, w) ∷ users) a u k user e f g =
    ground (arith, ==_iff v a, lookup-only users a u k user, lookup-nobody users a k user)

module _ (alive : ℕ → Bool) where
  sent_to :
      (s : DocumentSession) (a : ℕ) (p : Payload) (user : ConnectedUser)
      → lookup a s.connected_users ≡ some user
      → send_to_user alive s a p ≡ send alive user.session p
  unfolding send_to_user
  sent_to s a p user e = rw (e, send_to_user) refl

  sent_to_none :
      (s : DocumentSession) (a : ℕ) (p : Payload)
      → lookup a s.connected_users ≡ none
      → send_to_user alive s a p ≡ []
  unfolding send_to_user
  sent_to_none s a p e = rw (e, send_to_user) refl

  pub reply-silent :
      (s : DocumentSession) (a k : ℕ) (p : Payload)
      → alive k ≡ true
      → users_of k s.connected_users ≡ []
      → inbox k (send_to_user alive s a p) ≡ []
  unfolding inbox
  reply-silent s a k p h n = elim (Option-cases (lookup a s.connected_users)) [
    | inl e ↦ rw (sent_to_none s a p e) refl
    | inr (user, e) ↦
        ap (inbox k) (sent_to s a p user e)
        ∙ inbox-send alive k user.session p h
        ∙ ground (arith, lookup-nobody s.connected_users a k user n e, ==_iff user.session k)
  ]

  pub reply-inbox :
      (s : DocumentSession) (a u k : ℕ) (p : Payload)
      → alive k ≡ true
      → Connected s.connected_users u k
      → inbox k (send_to_user alive s a p) ≡ (if u == a then p ∷ [] else [])
  unfolding inbox
  reply-inbox s a u k p h c = elim (Option-cases (lookup a s.connected_users)) [
    | inl e ↦
        let other : u ≢ a =
          λ same. absurd (cc (ap (λ (v : ℕ). lookup v s.connected_users) same, e, c.found)) in
        ground (arith, other, sent_to_none s a p e, ==_iff u a)
    | inr (user, e) ↦
        let sends : inbox k (send_to_user alive s a p)
            ≡ (if user.session == k then p ∷ [] else []) =
          ap (inbox k) (sent_to s a p user e) ∙ inbox-send alive k user.session p h in
        let same : u ≡ a → user.session ≡ k =
          λ eq. cc (ap (λ (v : ℕ). lookup v s.connected_users) eq, e, c.found, c.through) in
        let other : user.session ≡ k → a ≡ u = lookup-only s.connected_users a u k user c.only e in
        sends ∙ ground (arith, same, other, ==_iff u a, ==_iff user.session k)
  ]

-- The three messages of `handle_operation`.
abbrev ack_of : Document → Payload
ack_of d = operation_ack (record { doc_id = d.id; revision = d.revision })

abbrev pub news_of : Document → DocCommand → Operation → Payload
news_of d cmd op = operation_broadcast (record {
  doc_id = d.id;
  user_id = cmd.user_id;
  username = cmd.username;
  revision = d.revision;
  ops = entry_of op ∷ [];
})

abbrev refusal_of : OtResult → Payload
refusal_of result = error (record { code = bytes "revision_too_old"; message = result.error })

-- What a user is told of an operation.
abbrev pub told : DocumentSession → DocCommand → ℕ → List Payload
told s cmd u =
    let (doc, result) = apply_with_ot s.doc cmd.operation in
    if result.success
    then (if u == cmd.user_id then ack_of doc ∷ [] else news_of doc cmd result.transformed_op ∷ [])
    else (if u == cmd.user_id then refusal_of result ∷ [] else [])

either :
    (b : Bool) (xs ys : List Payload)
    → (if b then xs else []) ++ (if b then [] else ys) ≡ (if b then xs else ys)
either true xs ys = append-nil xs
either false xs ys = refl

-- A connected user whose client session lives is sent one message for each operation: the author
-- the acknowledgement or the error, everybody else the broadcast, and nothing where the operation
-- is refused.
pub handle_operation-told :
    (alive : ℕ → Bool) (s : DocumentSession) (cmd : DocCommand) (u k : ℕ)
    → alive k ≡ true
    → Connected s.connected_users u k
    → inbox k (handle_operation alive s cmd).1 ≡ told s cmd u
unfolding handle_operation inbox
handle_operation-told alive s cmd u k a c =
    let (doc, result) = apply_with_ot s.doc cmd.operation in
    let s' : DocumentSession = record s { doc = doc } in
    elim (Bool-cases result.success) [
      | inl e ↦
          rw (e, handle_operation)
            (inbox-append k (send_to_user alive s' cmd.user_id (ack_of doc)) (
                broadcast alive s.connected_users (news_of doc cmd result.transformed_op)
                  cmd.user_id)
              ∙ rw
                  (
                    reply-inbox alive s' cmd.user_id u k (ack_of doc) a c,
                    broadcast_one alive s.connected_users (news_of doc cmd result.transformed_op)
                        cmd.user_id u k a c.only,
                  )
                  (either (u == cmd.user_id) (ack_of doc ∷ [])
                    (news_of doc cmd result.transformed_op ∷ [])))
      | inr e ↦
          rw (e, handle_operation) (reply-inbox alive s' cmd.user_id u k (refusal_of result) a c)
    ]

-- An operation is no news for a client session through which nobody is connected.
pub operation-silent :
    (alive : ℕ → Bool) (s : DocumentSession) (cmd : DocCommand) (k : ℕ)
    → alive k ≡ true
    → users_of k s.connected_users ≡ []
    → inbox k (handle_operation alive s cmd).1 ≡ []
unfolding handle_operation inbox
operation-silent alive s cmd k a e =
    let (doc, result) = apply_with_ot s.doc cmd.operation in
    let s' : DocumentSession = record s { doc = doc } in
    elim (Bool-cases result.success) [
      | inl ok ↦
          rw (ok, handle_operation)
            (inbox-append k (send_to_user alive s' cmd.user_id (ack_of doc)) (
                broadcast alive s.connected_users (news_of doc cmd result.transformed_op)
                  cmd.user_id)
              ∙ rw
                  (
                    reply-silent alive s' cmd.user_id k (ack_of doc) a e,
                    broadcast_nobody alive s.connected_users (news_of doc cmd result.transformed_op)
                        cmd.user_id k e,
                  )
                  refl)
      | inr refused ↦
          rw (refused, handle_operation)
            (reply-silent alive s' cmd.user_id k (refusal_of result) a e)
    ]
