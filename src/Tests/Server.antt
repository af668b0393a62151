-- ===== src/Tests/Server.antt =====
-- A document session and its clients at concrete inputs (server/src).
use collaborative_text_edito.Common.{
  inr, ℕ, ◌≤◌, ◌≡◌, refl, arith, Bool, true, some, [], ◌∷◌, bytes, foldl,
}
use collaborative_text_edito.Common.Assoc.{nat_key, lookup}
use collaborative_text_edito.Core.Operation.{OpType, Operation}
use collaborative_text_edito.Core.Ot.{apply}
use collaborative_text_edito.Core.Document
use collaborative_text_edito.Core.Document.{Document, apply_with_ot, commit}
use collaborative_text_edito.Core.Document.Log.{Represents}
use collaborative_text_edito.Protocol.Messages.{OperationAckMsg, OperationBroadcastMsg}
use collaborative_text_edito.Client.OtController
use collaborative_text_edito.Client.OtController.{OtController, handle_ack, to_entry, from_entry}
use collaborative_text_edito.Client.OtController.Rebase.{Shows}
use collaborative_text_edito.Core.Ot.Converge.{Fits, Distinct}
use collaborative_text_edito.Server.DocumentSession.RoundTrip.{round_trip-Shows}
use collaborative_text_edito.Server.DocumentSession.{
  entry_of, ConnectedUser, CommandType, DocCommand, DocumentSession, handle_operation,
  process_commands,
}
use collaborative_text_edito.Server.DocumentSession.Delivery.{
  inbox, users_of, Connected, told, handle_operation-told,
}
use collaborative_text_edito.Server.DocumentSession.Observer.{
  hear, Follows, process_commands-Follows,
}
use collaborative_text_edito.Server.DocumentSession.InFlight.{
  Measured, turn, hears, edits, InFlight, turns-agree,
}

abbrev everyone : ℕ → Bool
everyone k = true

abbrev hello : Operation
hello = record {
  type = OpType.insert;
  position = 0;
  text = bytes "hello";
  length = 5;
  user_id = 1;
  revision = 0;
}

abbrev bye : Operation
bye = record {
  type = OpType.insert;
  position = 0;
  text = bytes "bye ";
  length = 4;
  user_id = 2;
  revision = 0;
}

abbrev notes : Document
notes = Document.init 7 (bytes "notes")

abbrev ann : ConnectedUser
ann = record { user_id = 1; username = bytes "ann"; color = bytes "#FF0000"; session = 11 }

abbrev bob : ConnectedUser
bob = record { user_id = 2; username = bytes "bob"; color = bytes "#00FF00"; session = 12 }

abbrev open_session : DocumentSession
open_session = record { doc = notes; connected_users = (1, ann) ∷ (2, bob) ∷ [] }

abbrev types_hello : DocCommand
types_hello = record {
  type = CommandType.operation;
  operation = hello;
  user_id = 1;
  username = bytes "ann";
  color = [];
  session = 0;
}

abbrev carl_joins : DocCommand
carl_joins = record {
  type = CommandType.join;
  operation = hello;
  user_id = 3;
  username = bytes "carl";
  color = bytes "#0000FF";
  session = 13;
}

bob-Connected : Connected open_session.connected_users 2 12
unfolding lookup users_of
bob-Connected = record { user = bob; found = refl; through = refl; only = refl }

handle_operation-told_example :
    inbox 12 (handle_operation everyone open_session types_hello).1
    ≡ told open_session types_hello 2
handle_operation-told_example =
    handle_operation-told everyone open_session types_hello 2 12 refl bob-Connected

-- Bob's client has opened the empty document.
abbrev reading : OtController
reading = OtController.init (record { content = []; revision = 0 }) 7 2 0

reading-Follows : Follows reading 2 notes
unfolding OtController.init Document.init
reading-Follows = record {
  user = refl;
  document = refl;
  idle = refl;
  content = refl;
  revision = refl;
}

process_commands-Follows_example :
    Follows
      (foldl hear reading
        (inbox 12 (process_commands everyone open_session (types_hello ∷ types_hello ∷ [])).1))
      2
      (process_commands everyone open_session (types_hello ∷ types_hello ∷ [])).0.doc
process_commands-Follows_example =
    process_commands-Follows everyone 2 12 reading open_session (types_hello ∷ types_hello ∷ [])
      refl bob-Connected reading-Follows (refl, (λ e. omega arith), (refl, (λ e. omega arith), tt))

-- The server has applied Ann's insertion, and Bob's of the same place is in flight.
abbrev served : Document
served = (apply_with_ot notes hello).0

served-Represents : Represents served [] (hello ∷ [])
unfolding Document.init apply_with_ot commit Document.transform_from Document.trim apply
served-Represents = record { replayed = refl; counted = refl; kept = refl; suffix = refl }

abbrev typing : OtController
typing = record {
  doc = record { content = bytes "bye "; revision = 0 };
  doc_id = 7;
  user_id = 2;
  revision = 0;
  state = OtController.State.awaiting_ack;
  pending_op = some bye;
  buffer = [];
}

typing-InFlight : InFlight typing 2 bye
typing-InFlight = record { user = refl; coherent = ((λ e. cc), refl); pending = refl }

bye-Measured : Measured bye
bye-Measured = record { inserts = λ e. refl; deletes = λ e. cc }

hello-Measured : Measured hello
hello-Measured = record { inserts = λ e. refl; deletes = λ e. cc }

abbrev news : OperationBroadcastMsg
news = record {
  doc_id = 7;
  user_id = 1;
  username = bytes "ann";
  revision = 1;
  ops = record { op = bytes "insert"; pos = 0; text = bytes "hello"; len = 0 } ∷ [];
}

not_yet : served.oldest_revision ≤ 0
unfolding Document.init apply_with_ot commit Document.transform_from Document.trim
not_yet = omega arith

turns-agree_example :
    InFlight
      (foldl turn typing (hears news ∷ edits (hello ∷ []) ∷ []))
      2
      (apply_with_ot served bye).1.transformed_op
    × Measured (apply_with_ot served bye).1.transformed_op
turns-agree_example =
    turns-agree served [] (hello ∷ []) typing 2 bye (hears news ∷ edits (hello ∷ []) ∷ [])
      served-Represents not_yet (omega arith) typing-InFlight bye-Measured
      (refl, refl, (λ e. omega arith), hello-Measured, tt)

abbrev ack : OperationAckMsg
ack = record { doc_id = 7; revision = 2 }

typing_first : Shows typing []
unfolding apply
typing_first = record { shown = refl }

abbrev heard : Operation
heard = from_entry (entry_of hello) 1 1

bye-heard-Fits : Fits [] bye heard
unfolding from_entry
bye-heard-Fits = record {
  well = record { in_range = omega arith; measured = λ e. refl };
  well' = record { in_range = omega arith; measured = λ e. refl };
  room = omega arith;
  inside = λ e. omega arith;
  inside' = λ e. omega arith;
}

bye-heard-Distinct : Distinct bye heard
unfolding from_entry
bye-heard-Distinct = λ e e'. inr (λ x. omega arith)

round_trip-Shows_example :
    Shows
      (handle_ack (foldl turn typing (hears news ∷ edits (hello ∷ []) ∷ [])) ack).0
      (apply_with_ot served bye).0.content
    × ((handle_ack (foldl turn typing (hears news ∷ edits (hello ∷ []) ∷ [])) ack).0.doc.content
        ≡ (foldl turn typing (hears news ∷ edits (hello ∷ []) ∷ [])).doc.content)
round_trip-Shows_example =
    round_trip-Shows served [] (hello ∷ []) typing 2 bye (hears news ∷ edits (hello ∷ []) ∷ []) ack
      served-Represents not_yet (omega arith) typing-InFlight bye-Measured
      (refl, refl, (λ e. omega arith), hello-Measured, tt) typing_first
      ((bye-heard-Fits, bye-heard-Distinct, tt), tt)
