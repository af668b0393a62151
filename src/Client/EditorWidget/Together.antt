-- ===== src/Client/EditorWidget/Together.antt =====
-- The editor (client/src/editor_widget.cpp) with the controller (client/src/ot_controller.cpp) that
-- takes its operations.
use collaborative_text_edito.Common.{
  ℕ, ◌≡◌, refl, ap, sym, ◌∙◌, inl, inr, List, [], ◌∷◌, Bytes, length, foldl, Bool-cases,
}
use collaborative_text_edito.Core.Operation.{Operation, is_noop}
use collaborative_text_edito.Core.Ot.{apply}
use collaborative_text_edito.Client.OtController
use collaborative_text_edito.Client.OtController.{
  OtController, local_edit, local_operation, local_operations, on_local_operations,
}
use collaborative_text_edito.Client.EditorWidget.{Utf8, EditorWidget, on_contents_change}
use collaborative_text_edito.Client.EditorWidget.Remote.{apply-noop}
use collaborative_text_edito.Client.EditorWidget.Edits.{Changed, on_contents_change-apply}

content-local_edit :
    (c : OtController) (op : Operation) (state : OtController.State)
    → c.state ≡ state
    → (local_edit c op).0.doc.content ≡ apply c.doc.content op
unfolding local_edit
content-local_edit c op OtController.State.synchronized e = rw e refl
content-local_edit c op OtController.State.awaiting_ack e = rw e refl
content-local_edit c op OtController.State.awaiting_ack_with_buffer e = rw e refl

-- The author and the revision are nothing to `apply`.
apply-signed :
    (d : Bytes) (op : Operation) (user_id revision : ℕ)
    → apply d (record op { user_id = user_id; revision = revision }) ≡ apply d op
unfolding apply
apply-signed d op user_id revision = refl

content-local_operation :
    (c : OtController) (op : Operation)
    → (local_operation c op).0.doc.content ≡ apply c.doc.content op
unfolding local_operation
content-local_operation c op = elim (Bool-cases (is_noop op)) [
  | inl none ↦ rw none (sym (apply-noop c.doc.content op none))
  | inr some ↦ rw some (
      content-local_edit c (record op { user_id = c.user_id; revision = c.revision }) c.state refl
      ∙ apply-signed c.doc.content op c.user_id c.revision)
]

content-local_operations :
    (c : OtController) (ops : List Operation)
    → (local_operations c ops).0.doc.content ≡ foldl apply c.doc.content ops
unfolding local_operations
content-local_operations c [] = refl
content-local_operations c (op ∷ ops) =
    content-local_operations (local_operation c op).0 ops
    ∙ ap (λ (d : Bytes). foldl apply d ops) (content-local_operation c op)

-- What the user types reaches the client's copy of the document: if the copy was the bytes of the
-- text before, it is those of the text that the editor shows, once the controller has taken the
-- operations that the editor emits. No operation of others is being applied, some characters
-- behind `a` have been replaced by others, the bytes of both texts can be cut at the ends of the
-- characters, and those of the text before are below 2 ^ 32.
pub on_local_operations-on_contents_change :
    (q : Utf8) (a r i b : List ℕ) (w : EditorWidget) (c : OtController)
    → Changed q a r i b w
    → c.doc.content ≡ q.to_utf8 w.last_known_text
    → let w' = (on_contents_change q w (length a) (length r) (length i)).0 in
      let ops = (on_contents_change q w (length a) (length r) (length i)).1 in
      ((on_local_operations c ops).0.doc.content ≡ q.to_utf8 w'.last_known_text)
      × (w'.last_known_text ≡ w.text)
unfolding on_local_operations
on_local_operations-on_contents_change q a r i b w c changed same =
    let (typed, known) = on_contents_change-apply q a r i b w changed in
    (
      content-local_operations c (on_contents_change q w (length a) (length r) (length i)).1
          ∙ ap
              (λ (d : Bytes).
                foldl apply d (on_contents_change q w (length a) (length r) (length i)).1)
              same
          ∙ typed
          ∙ ap q.to_utf8 (sym known),
      known,
    )
