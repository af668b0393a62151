-- ===== src/Server/DocumentSession/RoundTrip.antt =====
-- The way of an operation from the user's edit to its acknowledgement, with what the user sees
-- (client/src/ot_controller.cpp, core/src/document.cpp).
use collaborative_text_edito.Common.{
  ℕ, zero, suc, ◌+◌, ◌^◌, ◌≤◌, ◌<◌, ◌≡◌, ◌≢◌, refl, sym, ap, subst, ◌∙◌, arith, true, false,
  Bool-cases, ◌==◌, ==_iff, inl, inr, List, [], ◌∷◌, Bytes, foldl, take, drop, length,
}
use collaborative_text_edito.Core.Operation.{Operation, is_noop}
use collaborative_text_edito.Core.Ot.{apply, transform}
use collaborative_text_edito.Core.Document.{Document, apply_with_ot}
use collaborative_text_edito.Core.Document.Log.{Represents}
use collaborative_text_edito.Protocol.Messages.{OperationAckMsg, OperationBroadcastMsg}
use collaborative_text_edito.Client.OtController.{
  OtController, from_entry, local_operation, local_operations, on_local_operations,
  handle_broadcast, handle_ack, remote_operations, remote_operation,
}
use collaborative_text_edito.Client.OtController.Coherent.{IsCoherent, local-IsCoherent}
use collaborative_text_edito.Client.OtController.Rebase.{
  outstanding, Meets, Shows, local_operation-Shows, remote_operation-Shows,
}
use collaborative_text_edito.Server.DocumentSession.{entry_of}
use collaborative_text_edito.Server.DocumentSession.Observer.{apply-from_entry}
use collaborative_text_edito.Server.DocumentSession.InFlight.{
  Turn, hears, edits, turn, Carries, Measured, InFlight, turn-edits, turn-hears,
  turns_acknowledged-Shows,
}

-- Each broadcast meets the operations that are outstanding by then within the limits of `transform`.
abbrev pub MeetsAll : OtController → Bytes → List Turn → List Operation → Type 0
MeetsAll c s [] pasts = Unit {0}
MeetsAll c s (edits ops ∷ turns) pasts = MeetsAll (turn c (edits ops)) s turns pasts
MeetsAll c s (hears msg ∷ turns) [] = Unit {0}
MeetsAll c s (hears msg ∷ turns) (past ∷ pasts) =
    Meets s (outstanding c) (from_entry (entry_of past) past.user_id msg.revision)
    × MeetsAll (turn c (hears msg)) (apply s past) turns pasts

noop_stays : (c : OtController) (op : Operation) → is_noop op ≡ true → (local_operation c op).0 ≡ c
unfolding local_operation
noop_stays c op e = ground arith

edits-Shows :
    (c : OtController) (s : Bytes) (ops : List Operation)
    → IsCoherent c
    → Shows c s
    → Shows (local_operations c ops).0 s
unfolding local_operations
edits-Shows c s [] h v = v
edits-Shows c s (op ∷ ops) h v =
    let shown : Shows (local_operation c op).0 s = elim (Bool-cases (is_noop op)) [
      | inl e ↦ subst (λ c'. Shows c' s) (sym (noop_stays c op e)) v
      | inr e ↦ (local_operation-Shows c s op h e v).0
    ] in
    edits-Shows (local_operation c op).0 s ops (local-IsCoherent c op h) shown

edited-Shows :
    (c : OtController) (s : Bytes) (ops : List Operation)
    → IsCoherent c
    → Shows c s
    → Shows (turn c (edits ops)) s
unfolding turn on_local_operations
edited-Shows c s ops h v = edits-Shows c s ops h v

heard-Shows :
    (c : OtController) (s : Bytes) (past : Operation) (msg : OperationBroadcastMsg)
    → IsCoherent c
    → Shows c s
    → msg.ops ≡ entry_of past ∷ []
    → msg.user_id ≡ past.user_id
    → past.user_id ≢ c.user_id
    → Meets s (outstanding c) (from_entry (entry_of past) past.user_id msg.revision)
    → Shows (turn c (hears msg)) (apply s past)
unfolding turn handle_broadcast remote_operations
heard-Shows c s past msg h v ops author other m =
    let o = from_entry (entry_of past) past.user_id msg.revision in
    let foreign : (msg.user_id == c.user_id) ≡ false =
      ground (arith, author, other, ==_iff msg.user_id c.user_id) in
    let moved = remote_operation-Shows c s o h v m in
    rw (foreign, turn, handle_broadcast, ops, author, remote_operations)
      (record {
        shown =
            moved.shown
            ∙ ap (λ t. foldl apply t (outstanding (remote_operation c o).0))
                (apply-from_entry s past past.user_id msg.revision);
      })

turns-Shows :
    (c : OtController) (u : ℕ) (op : Operation) (s : Bytes) (turns : List Turn)
    (pasts : List Operation)
    → InFlight c u op
    → Shows c s
    → Carries u turns pasts
    → MeetsAll c s turns pasts
    → Shows (foldl turn c turns) (foldl apply s pasts)
turns-Shows c u op s [] [] f v k m = v
turns-Shows c u op s [] (past ∷ pasts) f v k m = absurd k
turns-Shows c u op s (edits ops ∷ turns) pasts f v k m =
    turns-Shows (turn c (edits ops)) u op s turns pasts (turn-edits c u op ops f)
      (edited-Shows c s ops f.coherent v) k m
turns-Shows c u op s (hears msg ∷ turns) [] f v k m = absurd k
turns-Shows c u op s (hears msg ∷ turns) (past ∷ pasts) f v k m =
    turns-Shows (turn c (hears msg)) u (transform op past).0 (apply s past) turns pasts
      (turn-hears c u op past msg f k.0 k.1 k.2 k.3)
      (heard-Shows c s past msg f.coherent v k.0 k.1 (λ e. k.2 (e ∙ f.user)) m.0) k.4 m.1

replay_split :
    (n : ℕ) (s : Bytes) (log : List Operation)
    → foldl apply (foldl apply s (take n log)) (drop n log) ≡ foldl apply s log
replay_split zero s log = refl
replay_split (suc n) s [] = refl
replay_split (suc n) s (op ∷ log) = replay_split n (apply s op) log

-- The way of an operation, from both ends: a client shows the server's document as it was at the
-- operation's revision, with its own operations on top. It takes the broadcasts of what the server
-- applies of other users before the operation arrives, within the limits of `transform`, and the
-- user goes on editing. Then the server applies the operation, and when the client has taken the
-- acknowledgement it shows the server's document, with its own operations on top, and nothing has
-- changed for the user by the acknowledgement.
pub round_trip-Shows :
    (d : Document) (base : Bytes) (log : List Operation) (c : OtController) (u : ℕ) (op : Operation)
    (turns : List Turn) (ack : OperationAckMsg)
    → Represents d base log
    → d.oldest_revision ≤ op.revision
    → length log + 1 < 2 ^ 32
    → InFlight c u op
    → Measured op
    → Carries u turns (drop op.revision log)
    → Shows c (foldl apply base (take op.revision log))
    → MeetsAll c (foldl apply base (take op.revision log)) turns (drop op.revision log)
    → Shows (handle_ack (foldl turn c turns) ack).0 (apply_with_ot d op).0.content
      × ((handle_ack (foldl turn c turns) ack).0.doc.content ≡ (foldl turn c turns).doc.content)
round_trip-Shows d base log c u op turns ack r old room f m k v meets =
    let seen = foldl apply base (take op.revision log) in
    let after = turns-Shows c u op seen turns (drop op.revision log) f v k meets in
    turns_acknowledged-Shows d base log c u op turns ack r old room f m k (
      subst (Shows (foldl turn c turns)) (replay_split op.revision base log ∙ sym r.replayed) after)
