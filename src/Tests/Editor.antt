-- ===== src/Tests/Editor.antt =====
-- Edits in the editor of a client (client/src/editor_widget.cpp) at a concrete text.
use collaborative_text_edito.Common.{
  ℕ, ◌+◌, ◌-◌, ◌*◌, ◌/◌, ◌%◌, ◌≡◌, refl, arith, false, List, [], ◌∷◌, ◌++◌, Bytes, ltb,
  if◌then◌else◌,
}
use collaborative_text_edito.Core.Operation.{OpType, Operation}
use collaborative_text_edito.Core.Ot.{apply}
use collaborative_text_edito.Client.EditorWidget.{
  Utf8, EditorWidget, on_contents_change, apply_remote_operation,
}
use collaborative_text_edito.Client.EditorWidget.Edits.{Changed}
use collaborative_text_edito.Client.EditorWidget.Together.{on_local_operations-on_contents_change}
use collaborative_text_edito.Client.OtController
use collaborative_text_edito.Client.OtController.{OtController, on_local_operations}
use collaborative_text_edito.Client.EditorWidget.Remote.{
  Placed, deleting, apply_remote_operation-apply,
}

-- UTF-8 of the characters below 2048.
abbrev encoded : List ℕ → Bytes
encoded [] = []
encoded (c ∷ cs) =
    (if ltb c 128 then c ∷ [] else (192 + c / 64) ∷ (128 + c % 64) ∷ []) ++ encoded cs

abbrev decoded : Bytes → List ℕ
decoded [] = []
decoded (b ∷ []) = b ∷ []
decoded (b ∷ c ∷ cs) =
    let one = b ∷ decoded (c ∷ cs) in
    let two = ((b - 192) * 64 + (c - 128)) ∷ decoded cs in if ltb b 128 then one else two

abbrev latin : Utf8
latin = record { to_utf8 = encoded; from_utf8 = decoded }

-- The second character, of two bytes, has been replaced by two others.
abbrev replaced : EditorWidget
replaced = record {
  text = 97 ∷ 98 ∷ 233 ∷ 99 ∷ [];
  anchor = 3;
  position = 3;
  last_known_text = 97 ∷ 233 ∷ 99 ∷ [];
  applying_remote = false;
  user_id = 1;
  current_revision = 0;
}

replaced-Changed : Changed latin (97 ∷ []) (233 ∷ []) (98 ∷ 233 ∷ []) (99 ∷ []) replaced
replaced-Changed = record {
  local = refl;
  before = refl;
  now = refl;
  before_cut = refl;
  removed_cut = refl;
  now_cut = refl;
  added_cut = refl;
  before_short = omega arith;
}

abbrev client : OtController
client = OtController.init (record { content = encoded (97 ∷ 233 ∷ 99 ∷ []); revision = 0 }) 1 1 0

on_local_operations-on_contents_change_example :
    ((on_local_operations client (on_contents_change latin replaced 1 1 2).1).0.doc.content
      ≡ encoded (on_contents_change latin replaced 1 1 2).0.last_known_text)
    × ((on_contents_change latin replaced 1 1 2).0.last_known_text ≡ replaced.text)
unfolding OtController.init
on_local_operations-on_contents_change_example =
    on_local_operations-on_contents_change latin (97 ∷ []) (233 ∷ []) (98 ∷ 233 ∷ []) (99 ∷ [])
      replaced client replaced-Changed refl

-- The first character, of two bytes, is kept, and the next one goes.
abbrev goes : Operation
goes = record {
  type = OpType.delete;
  position = 2;
  text = [];
  length = 1;
  user_id = 2;
  revision = 0;
}

abbrev known : EditorWidget
known = record replaced { text = 233 ∷ 97 ∷ 98 ∷ []; last_known_text = 233 ∷ 97 ∷ 98 ∷ [] }

goes-Placed : Placed latin known.text goes
goes-Placed =
    deleting (233 ∷ []) (97 ∷ []) (98 ∷ []) refl refl refl refl refl refl refl refl refl refl

apply_remote_operation-apply_example :
    (encoded (apply_remote_operation latin known goes).text ≡ apply (encoded known.text) goes)
    × ((apply_remote_operation latin known goes).text
        ≡ (apply_remote_operation latin known goes).last_known_text)
apply_remote_operation-apply_example =
    apply_remote_operation-apply latin refl known goes refl (omega arith) goes-Placed
