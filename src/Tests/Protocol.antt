-- ===== src/Tests/Protocol.antt =====
-- The framing and the names of the messages at concrete inputs (protocol/src).
use collaborative_text_edito.Common.{true, [], Bytes}
use collaborative_text_edito.Protocol.Messages.{DocJoinResponseMsg, doc_join_response}
use collaborative_text_edito.Protocol.Responses.Answers.{doc_join_response_to_json}
use collaborative_text_edito.Protocol.Responses.ReadAnswers.{accepted}
use collaborative_text_edito.Client.ProtocolCodec.{parse_envelope, parse_doc_join_response}
use collaborative_text_edito.Client.ProtocolCodec.Responses.{parse-serialize}
use collaborative_text_edito.Tests.JsonText.{json_text, json_text-IsLawful}
use collaborative_text_edito.Common.{◌≡◌, ◌≢◌, refl, arith, none, some, ◌∷◌, bytes, bytes_eq}
use collaborative_text_edito.Common.Assoc.{lookup}
use collaborative_text_edito.Protocol.Frame.{encode_frame, decode_frame_header}
use collaborative_text_edito.Protocol.MessageType.{MessageType, parse_message_type}

framed : encode_frame (bytes "{}") ≡ 0 ∷ 0 ∷ 0 ∷ 2 ∷ bytes "{}"
unfolding encode_frame
framed = refl

-- One byte more than 16 MiB is refused.
refused : decode_frame_header 1 0 0 1 ≡ none
unfolding decode_frame_header
refused = refl

is_rate_limit : parse_message_type (bytes "rate_limit") ≢ MessageType.unknown
unfolding parse_message_type bytes_eq lookup
is_rate_limit e = cc

abbrev welcome : DocJoinResponseMsg
welcome = record {
  success = true;
  doc_id = 7;
  title = bytes "plan";
  content = bytes "hi";
  revision = 3;
  role = bytes "editor";
  users = record { user_id = 1; username = bytes "ann"; color = bytes "#FF0000" } ∷ [];
  error = [];
}

welcome_text : Bytes
welcome_text = doc_join_response_to_json json_text welcome

parse-serialize_example :
    (parse_envelope json_text welcome_text
      ≡ record { type = MessageType.doc_join_response; payload = welcome_text })
    × (parse_doc_join_response json_text welcome_text ≡ some welcome)
unfolding welcome_text
parse-serialize_example =
    parse-serialize json_text-IsLawful (doc_join_response welcome) welcome_text
      (accepted welcome (omega arith) (omega arith) (omega arith, tt)) refl
