-- ===== src/Server/DocumentManager.antt =====
-- server/include/server/document_manager.h, server/src/document_manager.cpp: the documents that are
-- loaded, their titles, their sessions and the cursors in them. A document is a shared object: it
-- stands in `store` at its address, and the maps hold addresses. A session is known by the address of
-- its document. What the disk holds is an argument; what is written to it is returned. The mutex
-- makes each method one step; `get_document` lets go of it to read the file and looks again.
pub mod Pointers
pub mod Lifetime
use collaborative_text_edito.Common.{
  ℕ, zero, suc, ◌+◌, ◌/◌, ◌%◌, Bool, true, false, Option, none, some, List, [], ◌∷◌, ◌++◌, map,
  Bytes, bytes, if◌then◌else◌, ltb, leb, add32, length, get_elem?,
}
use collaborative_text_edito.Common.Assoc.{nat_key, lookup, insert, erase}
use collaborative_text_edito.Core.Operation.{empty}
use collaborative_text_edito.Core.Document
use collaborative_text_edito.Core.Document.{Document, load_content, subscriber_count}
use collaborative_text_edito.Core.Access.{
  Role, AccessControl, get_role, grant, revoke_all_for_document, list_documents_for_user,
}

pub record CursorState : Type 0 where
  pub user_id : ℕ
  pub username : Bytes
  pub color : Bytes
  pub position : ℕ
  pub selection_start : Option ℕ
  pub selection_end : Option ℕ

pub record DocListItem : Type 0 where
  pub doc_id : ℕ
  pub title : Bytes
  pub role : Bytes
  pub online_count : ℕ

pub record DocumentManager : Type 0 where
  pub access : AccessControl
  pub store : List Document
  pub documents : List (ℕ × ℕ)
  pub titles : List (ℕ × Bytes)
  pub sessions : List (ℕ × ℕ)
  pub cursor_buffers : List (ℕ × List (ℕ × CursorState))
  pub next_doc_id : ℕ

-- What is done to the files of a document.
pub data DiskEffect : Type 0 where
  truncate_text : ℕ → DiskEffect
  write_meta : ℕ → Bytes → DiskEffect
  remove_text remove_meta : ℕ → DiskEffect

unfoldable pub create_document : DocumentManager → Bytes → ℕ → DocumentManager × ℕ × List DiskEffect
unfolding insert grant Document.init
create_document m title owner =
    let doc_id = m.next_doc_id in
    (
      record m {
        access = grant m.access doc_id owner Role.owner;
        store = m.store ++ Document.init doc_id title ∷ [];
        documents = insert doc_id (length m.store) m.documents;
        titles = insert doc_id title m.titles;
        next_doc_id = add32 doc_id 1;
      },
      doc_id,
      truncate_text doc_id ∷ write_meta doc_id title ∷ [],
    )

-- `{}` of a number that has at most as many digits as there is fuel.
pub decimal : ℕ → ℕ → Bytes
decimal zero n = []
decimal (suc fuel) n =
    let front = decimal fuel (n / 10) in
    if ltb n 10 then (b'0' + n) ∷ [] else front ++ (b'0' + n % 10) ∷ []

abbrev title_or_default : ℕ → Bytes → Bytes
title_or_default doc_id title =
    if empty title then bytes "Document " ++ decimal 10 doc_id else title

-- With the content of the text file, if it can be read, and the first line of the meta file.
unfoldable pub load_from_disk_unlocked : Option Bytes → Bytes → ℕ → Option Document
unfolding decimal load_content Document.init
load_from_disk_unlocked none title doc_id = none
load_from_disk_unlocked (some content) title doc_id =
    some (load_content (Document.init doc_id (title_or_default doc_id title)) content)

abbrev add_loaded : DocumentManager → ℕ → Document → DocumentManager × Option ℕ
add_loaded m doc_id loaded = (
  record m {
    store = m.store ++ loaded ∷ [];
    documents = insert doc_id (length m.store) m.documents;
    titles = insert doc_id loaded.title m.titles;
    next_doc_id = if leb m.next_doc_id doc_id then add32 doc_id 1 else m.next_doc_id;
  },
  some (length m.store),
)

unfoldable pub get_document :
    DocumentManager → Option Bytes → Bytes → ℕ → DocumentManager × Option ℕ
unfolding lookup load_from_disk_unlocked
get_document m text title doc_id = elim (lookup doc_id m.documents) [
  | some doc ↦ (m, some doc)
  | none ↦ elim (load_from_disk_unlocked text title doc_id) [
    | none ↦ (m, none)
    | some loaded ↦ add_loaded m doc_id loaded
  ]
]

unfoldable pub delete_document : DocumentManager → ℕ → DocumentManager × List DiskEffect
unfolding erase revoke_all_for_document
delete_document m doc_id = (
  record m {
    access = revoke_all_for_document m.access doc_id;
    documents = erase doc_id m.documents;
    titles = erase doc_id m.titles;
    sessions = erase doc_id m.sessions;
    cursor_buffers = erase doc_id m.cursor_buffers;
  },
  remove_text doc_id ∷ remove_meta doc_id ∷ [],
)

abbrev pub role_name : Option Role → Bytes
role_name none = bytes "none"
role_name (some Role.owner) = bytes "owner"
role_name (some Role.editor) = bytes "editor"
role_name (some Role.viewer) = bytes "viewer"

unfoldable pub role_to_string : DocumentManager → ℕ → ℕ → Bytes
unfolding get_role
role_to_string m doc_id user_id = role_name (get_role m.access doc_id user_id)

abbrev online : Option Document → ℕ
online none = 0
online (some d) = subscriber_count d

abbrev object : List Document → Option ℕ → Option Document
object store none = none
object store (some address) = get_elem? store address

abbrev title_of : Option Bytes → Bytes
title_of none = []
title_of (some title) = title

unfoldable pub list_documents : DocumentManager → ℕ → List DocListItem
unfolding lookup list_documents_for_user role_to_string
list_documents m user_id =
    map
      (λ (doc_id : ℕ). record {
        doc_id = doc_id;
        title = title_of (lookup doc_id m.titles);
        role = role_to_string m doc_id user_id;
        online_count = online (object m.store (lookup doc_id m.documents));
      })
      (list_documents_for_user m.access user_id)

unfoldable pub get_or_create_session : DocumentManager → ℕ → DocumentManager × Option ℕ
unfolding lookup insert
get_or_create_session m doc_id = elim (lookup doc_id m.sessions) [
  | some session ↦ (m, some session)
  | none ↦ elim (lookup doc_id m.documents) [
    | none ↦ (m, none)
    | some doc ↦ (record m { sessions = insert doc_id doc m.sessions }, some doc)
  ]
]

unfoldable pub get_session : DocumentManager → ℕ → Option ℕ
unfolding lookup
get_session m doc_id = lookup doc_id m.sessions

unfoldable pub remove_session : DocumentManager → ℕ → DocumentManager
unfolding erase
remove_session m doc_id = record m { sessions = erase doc_id m.sessions }

abbrev cursors_of : Option (List (ℕ × CursorState)) → List (ℕ × CursorState)
cursors_of none = []
cursors_of (some cursors) = cursors

unfoldable pub get_cursors : DocumentManager → ℕ → List (ℕ × CursorState)
unfolding lookup
get_cursors m doc_id = cursors_of (lookup doc_id m.cursor_buffers)

-- `cursor_buffers_[docId]` makes an empty map where there is none.
unfoldable pub update_cursor : DocumentManager → ℕ → CursorState → DocumentManager
unfolding insert get_cursors
update_cursor m doc_id state = record m {
  cursor_buffers =
      insert doc_id (insert state.user_id state (get_cursors m doc_id)) m.cursor_buffers;
}

unfoldable pub remove_cursor : DocumentManager → ℕ → ℕ → DocumentManager
unfolding lookup insert erase
remove_cursor m doc_id user_id = elim (lookup doc_id m.cursor_buffers) [
  | none ↦ m
  | some cursors ↦ record m {
    cursor_buffers = insert doc_id (erase user_id cursors) m.cursor_buffers;
  }
]

abbrev pub all_active_doc_ids : DocumentManager → List ℕ
all_active_doc_ids m = map (λ (entry : ℕ × ℕ). entry.0) m.sessions
