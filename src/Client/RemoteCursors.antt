-- ===== src/Client/RemoteCursors.antt =====
-- client/include/client/remote_cursors_model.h, client/src/remote_cursors_model.cpp: the cursors of
-- the other users of a document. A method returns the new state and whether it emits
-- `cursorsChanged`. Whether a text names a colour is Qt's to say, and a parameter.
pub mod Within
use collaborative_text_edito.Common.{
  ℕ, Bool, true, false, ◌||◌, ◌==◌, Option, none, some, List, [], ◌∷◌, map, Bytes, bytes,
  if◌then◌else◌,
}
use collaborative_text_edito.Common.Assoc.{nat_key, lookup, insert, erase}
use collaborative_text_edito.Core.Operation.{Operation, is_noop}
use collaborative_text_edito.Protocol.Messages.{CursorInfo, CursorBroadcastMsg}
use collaborative_text_edito.Client.CursorTranslator.{translate}

pub record RemoteCursor : Type 0 where
  pub user_id : ℕ
  pub username : Bytes
  pub color : Bytes
  pub position : ℕ
  pub selection_start : Option ℕ
  pub selection_end : Option ℕ

pub record RemoteCursorsModel : Type 0 where
  pub cursors : List (ℕ × RemoteCursor)
  pub local_user_id : ℕ

-- `unordered_map::emplace` leaves an entry that is there.
unfoldable pub emplace : ℕ → RemoteCursor → List (ℕ × RemoteCursor) → List (ℕ × RemoteCursor)
unfolding lookup insert
emplace k c m = elim (lookup k m) [ none ↦ insert k c m | some other ↦ m ]

abbrev nonempty : List (ℕ × RemoteCursor) → Bool
nonempty [] = false
nonempty (c ∷ cs) = true

module _ (is_valid : Bytes → Bool) where
  abbrev pub remote_cursor : CursorInfo → RemoteCursor
  remote_cursor c = record {
    user_id = c.user_id;
    username = c.username;
    color = if is_valid c.color then c.color else bytes "#808080";
    position = c.position;
    selection_start = c.selection_start;
    selection_end = c.selection_end;
  }

  -- The loop of `applyBroadcast`.
  unfoldable pub collect : ℕ → List CursorInfo → List (ℕ × RemoteCursor) → List (ℕ × RemoteCursor)
  unfolding emplace
  collect own [] next = next
  collect own (c ∷ cs) next =
      collect own cs (if c.user_id == own then next else emplace c.user_id (remote_cursor c) next)

  unfoldable pub apply_broadcast :
      RemoteCursorsModel → CursorBroadcastMsg → RemoteCursorsModel × Bool
  unfolding collect
  apply_broadcast m msg = (record m { cursors = collect m.local_user_id msg.cursors [] }, true)

abbrev translate_option : Option ℕ → Operation → Option ℕ
translate_option none op = none
translate_option (some pos) op = some (translate pos op)

abbrev pub moved : Operation → RemoteCursor → RemoteCursor
moved op c = record c {
  position = translate c.position op;
  selection_start = translate_option c.selection_start op;
  selection_end = translate_option c.selection_end op;
}

-- The loop of `applyRemoteOperation`.
unfoldable pub move_all : Operation → List (ℕ × RemoteCursor) → List (ℕ × RemoteCursor)
move_all op [] = []
move_all op ((k, c) ∷ cs) = (k, moved op c) ∷ move_all op cs

unfoldable pub apply_remote_operation : RemoteCursorsModel → Operation → RemoteCursorsModel × Bool
unfolding move_all
apply_remote_operation m op =
    if is_noop op
    then (m, false)
    else if nonempty m.cursors
    then (record m { cursors = move_all op m.cursors }, true)
    else (m, false)

abbrev is_some : Option RemoteCursor → Bool
is_some none = false
is_some (some c) = true

unfoldable pub remove_user : RemoteCursorsModel → ℕ → RemoteCursorsModel × Bool
unfolding erase lookup
remove_user m user_id =
    (record m { cursors = erase user_id m.cursors }, is_some (lookup user_id m.cursors))

unfoldable pub clear : RemoteCursorsModel → RemoteCursorsModel × Bool
clear m = if nonempty m.cursors then (record m { cursors = [] }, true) else (m, false)
