-- ===== src/Tests/Joining.antt =====
-- A user who joins while an operation waits (server/src/message_handler.cpp,
-- server/src/document_session.cpp).
use collaborative_text_edito.Common.{
  ℕ, ◌≡◌, ◌≢◌, refl, ap, arith, Bool, true, none, [], ◌∷◌, bytes, length,
}
use collaborative_text_edito.Core.Operation.{OpType, Operation}
use collaborative_text_edito.Core.Ot.{apply}
use collaborative_text_edito.Core.Document
use collaborative_text_edito.Core.Document.{
  Document, apply_with_ot, commit, transform_from, trim, init,
}
use collaborative_text_edito.Protocol.Messages.{DocJoinResponseMsg}
use collaborative_text_edito.Server.DocumentSession.{
  ConnectedUser, CommandType, DocCommand, DocumentSession, process_commands,
}
use collaborative_text_edito.Server.DocumentSession.Delivery.{inbox, users_of}
use collaborative_text_edito.Server.DocumentSession.Joining.{join-misses}
use collaborative_text_edito.Server.MessageHandler.{
  World, Surroundings, replied, enqueued, doc_join_response,
}
use collaborative_text_edito.Server.MessageHandler.Handlers.{joined}
use collaborative_text_edito.Server.MessageHandler.Dispatch.{handled}

abbrev around : Surroundings
around = record {
  digest = record { cc_sha256 = λ x. [] };
  random = [];
  generate_color = λ u. bytes "#000000";
  text = λ d. none;
  title = λ d. [];
  connected_users = λ a. [];
  find_session_by_user_id = λ u. none;
}

abbrev world : World
world = record {
  auth = record { users = []; next_id = 4 };
  manager = record {
    access = record { rights = [] };
    store = [];
    documents = [];
    titles = [];
    sessions = [];
    cursor_buffers = [];
    next_doc_id = 8;
  };
  session = record {
    session_id = 13;
    authenticated = true;
    user_id = 3;
    username = bytes "carl";
    color = bytes "#0000FF";
    current_doc_id = 0;
    error_count = 0;
  };
}

abbrev everyone : ℕ → Bool
everyone k = true

abbrev hello : Operation
hello = record {
  type = OpType.insert;
  position = 0;
  text = bytes "hello";
  length = 5;
  user_id = 1;
  revision = 0;
}

abbrev types_hello : DocCommand
types_hello = record {
  type = CommandType.operation;
  operation = hello;
  user_id = 1;
  username = bytes "ann";
  color = [];
  session = 0;
}

abbrev ann : ConnectedUser
ann = record { user_id = 1; username = bytes "ann"; color = bytes "#FF0000"; session = 11 }

abbrev open_session : DocumentSession
open_session = record { doc = Document.init 7 (bytes "notes"); connected_users = (1, ann) ∷ [] }

five_ne_zero : ◌≢◌ {A = ℕ} 5 0
five_ne_zero e = omega arith

changes : (apply_with_ot open_session.doc hello).0.content ≢ open_session.doc.content
unfolding init apply_with_ot commit transform_from trim apply
changes e = five_ne_zero (ap length e)

join-misses_example :
    (response : DocJoinResponseMsg) × (join : DocCommand) × ((handled
        (λ r. none)
        (joined around world 7 0 open_session.doc)).1
      ≡ replied 13 (doc_join_response response) ∷ enqueued 0 join ∷ [])
    × ((process_commands everyone open_session (types_hello ∷ join ∷ [])).0.doc.content
        ≢ response.content)
    × (inbox 13 (process_commands everyone open_session (types_hello ∷ join ∷ [])).1 ≡ [])
unfolding users_of
join-misses_example =
    join-misses (λ r. none) around world 7 0 everyone open_session types_hello refl refl refl
      changes refl
