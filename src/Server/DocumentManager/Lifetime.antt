-- ===== src/Server/DocumentManager/Lifetime.antt =====
-- The beginning and the end of a document (server/src/document_manager.cpp with
-- core/src/access_control.cpp).
use collaborative_text_edito.Common.{
  ℕ, ◌^◌, ◌<◌, ◌≡◌, refl, ◌∙◌, arith, ◌&&◌, none, some, Option-cases, inl, inr, List, [], Bytes,
  ◌==◌, ==_refl, if◌then◌else◌, length,
}
use collaborative_text_edito.Common.Assoc.{nat_key, lookup, erase, lookup-insert, lookup-erase}
use collaborative_text_edito.Core.Access.{Role, get_role}
use collaborative_text_edito.Core.Access.Rights.{get_role-changes}
use collaborative_text_edito.Server.DocumentManager.{
  CursorState, DocumentManager, cursors_of, create_document, delete_document, get_session,
  get_cursors,
}
use collaborative_text_edito.Server.DocumentManager.Pointers.{IsValid}

-- A document that is created belongs to its owner alone: its id was not loaded, it is now, the owner
-- has his role, and other documents and other roles are as they were.
pub create_document-fresh :
    (m : DocumentManager) (title : Bytes) (owner d u : ℕ)
    → IsValid m
    → m.next_doc_id < 2 ^ 32
    → owner < 2 ^ 32
    → d < 2 ^ 32
    → u < 2 ^ 32
    → (lookup (create_document m title owner).1 m.documents ≡ none)
      × (lookup (create_document m title owner).1 (create_document m title owner).0.documents
          ≡ some (length m.store))
      × (get_role (create_document m title owner).0.access (create_document m title owner).1 owner
          ≡ some Role.owner)
      × (lookup d (create_document m title owner).0.documents ≡ (
          if (create_document m title owner).1 == d
          then some (length m.store)
          else lookup d m.documents))
      × (get_role (create_document m title owner).0.access d u ≡ (
          if ((create_document m title owner).1 == d) && (owner == u)
          then some Role.owner
          else get_role m.access d u))
unfolding create_document
create_document-fresh m title owner d u v i o d' u' =
    let id = m.next_doc_id in
    let unused : lookup id m.documents ≡ none = elim (Option-cases (lookup id m.documents)) [
      | inl e ↦ e
      | inr (a, e) ↦ absurd (omega (arith, v.below id a e))
    ] in
    (
      unused,
      lookup-insert id id (length m.store) m.documents ∙ rw (==_refl id) refl,
      (get_role-changes m.access id owner id owner i o i o Role.owner).0
          ∙ rw (==_refl id, ==_refl owner) refl,
      lookup-insert id d (length m.store) m.documents,
      (get_role-changes m.access id owner d u i o d' u' Role.owner).0,
    )

forgotten :
    (doc_id d : ℕ) (buffers : List (ℕ × List (ℕ × CursorState)))
    → cursors_of (lookup d (erase doc_id buffers))
      ≡ (if doc_id == d then [] else cursors_of (lookup d buffers))
forgotten doc_id d buffers = ground (arith, lookup-erase doc_id d buffers)

-- Of a document that is deleted nothing is left: it is not loaded, has no session and no cursors,
-- nobody has a role in it; and everything else is as it was.
pub delete_document-forgets :
    (m : DocumentManager) (doc_id d u : ℕ)
    → doc_id < 2 ^ 32
    → d < 2 ^ 32
    → u < 2 ^ 32
    → (lookup d (delete_document m doc_id).0.documents
        ≡ (if doc_id == d then none else lookup d m.documents))
      × (get_session (delete_document m doc_id).0 d
          ≡ (if doc_id == d then none else get_session m d))
      × (get_cursors (delete_document m doc_id).0 d ≡ (if doc_id == d then [] else get_cursors m d))
      × (get_role (delete_document m doc_id).0.access d u
          ≡ (if doc_id == d then none else get_role m.access d u))
unfolding delete_document get_session get_cursors
delete_document-forgets m doc_id d u i j k = (
  lookup-erase doc_id d m.documents,
  lookup-erase doc_id d m.sessions,
  forgotten doc_id d m.cursor_buffers,
  (get_role-changes m.access doc_id 0 d u i (omega arith) j k Role.owner).2,
)
