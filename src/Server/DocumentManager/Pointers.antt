-- ===== src/Server/DocumentManager/Pointers.antt =====
-- The shared documents of the document manager (server/src/document_manager.cpp): which objects the
-- maps point to.
use collaborative_text_edito.Common.{
  ℕ, ◌+◌, ◌^◌, ◌<◌, ◌≡◌, arith, Option, none, some, Option-cases, inl, inr, [], ◌∷◌, Bytes, ==_iff,
  length, length-append,
}
use collaborative_text_edito.Common.Assoc.{nat_key, lookup, lookup-insert, lookup-erase}
use collaborative_text_edito.Core.Document
use collaborative_text_edito.Core.Document.{Document, load_content}
use collaborative_text_edito.Server.DocumentManager.{
  DocumentManager, create_document, add_loaded, get_document, load_from_disk_unlocked,
  delete_document, get_or_create_session, remove_session,
}

-- A session works on the object that is loaded for its document, and ids that are given out stay
-- below the next one.
pub record IsValid (m : DocumentManager) : Type 0 where
  pub shared : (d a : ℕ) → lookup d m.sessions ≡ some a → lookup d m.documents ≡ some a
  pub below : (d a : ℕ) → lookup d m.documents ≡ some a → d < m.next_doc_id
  pub stored : (d a : ℕ) → lookup d m.documents ≡ some a → a < length m.store

create-IsValid :
    (m : DocumentManager) (title : Bytes) (owner : ℕ)
    → IsValid m
    → m.next_doc_id + 1 < 2 ^ 32
    → IsValid (create_document m title owner).0
unfolding create_document
create-IsValid m title owner v r = record {
  shared = λ d a e. ground (
    arith,
    lookup-insert m.next_doc_id d (length m.store) m.documents,
    ==_iff m.next_doc_id d,
    v.shared d a e,
    v.below d a,
  );
  below = λ d a e. ground (
    arith,
    lookup-insert m.next_doc_id d (length m.store) m.documents,
    ==_iff m.next_doc_id d,
    v.below d a,
  );
  stored = λ d a e. ground (
    arith,
    lookup-insert m.next_doc_id d (length m.store) m.documents,
    v.stored d a,
    length-append m.store (Document.init m.next_doc_id title ∷ []),
  );
}

add-IsValid :
    (m : DocumentManager) (doc_id : ℕ) (loaded : Document)
    → IsValid m
    → lookup doc_id m.documents ≡ none
    → doc_id + 1 < 2 ^ 32
    → IsValid (add_loaded m doc_id loaded).0
add-IsValid m doc_id loaded v e r = record {
  shared = λ d a s. ground (
    arith,
    lookup-insert doc_id d (length m.store) m.documents,
    ==_iff doc_id d,
    v.shared d a s,
    e,
  );
  below = λ d a s.
      ground
        (arith, lookup-insert doc_id d (length m.store) m.documents, ==_iff doc_id d, v.below d a);
  stored = λ d a s. ground (
    arith,
    lookup-insert doc_id d (length m.store) m.documents,
    v.stored d a,
    length-append m.store (loaded ∷ []),
  );
}

load-IsValid :
    (m : DocumentManager) (text : Option Bytes) (title : Bytes) (doc_id : ℕ)
    → IsValid m
    → doc_id + 1 < 2 ^ 32
    → IsValid (get_document m text title doc_id).0
unfolding get_document load_from_disk_unlocked
load-IsValid m text title doc_id v r = elim (Option-cases (lookup doc_id m.documents)) [
  | inr (doc, e) ↦ rw (e, get_document) v
  | inl e ↦ elim (Option-cases text) [
    | inl e' ↦ rw (e, get_document, e') v
    | inr (content, e') ↦ rw (e, get_document, e') (add-IsValid m doc_id _ v e r)
  ]
]

delete-IsValid :
    (m : DocumentManager) (doc_id : ℕ) → IsValid m → IsValid (delete_document m doc_id).0
unfolding delete_document
delete-IsValid m doc_id v = record {
  shared = λ d a e.
      ground
        (arith, lookup-erase doc_id d m.documents, lookup-erase doc_id d m.sessions, v.shared d a);
  below = λ d a e. ground (arith, lookup-erase doc_id d m.documents, v.below d a);
  stored = λ d a e. ground (arith, lookup-erase doc_id d m.documents, v.stored d a);
}

open-IsValid :
    (m : DocumentManager) (doc_id : ℕ) → IsValid m → IsValid (get_or_create_session m doc_id).0
unfolding get_or_create_session
open-IsValid m doc_id v = elim (Option-cases (lookup doc_id m.sessions)) [
  | inr (s, e) ↦ rw (e, get_or_create_session) v
  | inl e ↦ elim (Option-cases (lookup doc_id m.documents)) [
    | inl e' ↦ rw (e, e', get_or_create_session) v
    | inr (doc, e') ↦
        rw (e, e', get_or_create_session)
          (record {
            shared = λ d a s.
                ground
                  (arith, lookup-insert doc_id d doc m.sessions, ==_iff doc_id d, v.shared d a, e');
            below = v.below;
            stored = v.stored;
          })
  ]
]

close-IsValid : (m : DocumentManager) (doc_id : ℕ) → IsValid m → IsValid (remove_session m doc_id)
unfolding remove_session
close-IsValid m doc_id v = record {
  shared = λ d a e. ground (arith, lookup-erase doc_id d m.sessions, v.shared d a);
  below = v.below;
  stored = v.stored;
}

-- Every method that changes the maps keeps a session on the object that is loaded for its document,
-- the addresses within the store, and the ids below the next one, as long as the ids do not run out.
pub methods-IsValid :
    (m : DocumentManager) (title : Bytes) (owner : ℕ) (text : Option Bytes) (doc_id : ℕ)
    → IsValid m
    → m.next_doc_id + 1 < 2 ^ 32
    → doc_id + 1 < 2 ^ 32
    → IsValid (create_document m title owner).0
      × IsValid (get_document m text title doc_id).0
      × IsValid (delete_document m doc_id).0
      × IsValid (get_or_create_session m doc_id).0
      × IsValid (remove_session m doc_id)
methods-IsValid m title owner text doc_id v r r' = (
  create-IsValid m title owner v r,
  load-IsValid m text title doc_id v r',
  delete-IsValid m doc_id v,
  open-IsValid m doc_id v,
  close-IsValid m doc_id v,
)
