-- ===== src/Protocol/Messages.antt =====
-- The messages (the structs of protocol/include/collab_protocol/protocol.h). A `std::string` is its
-- bytes; `onlineCount` is an int that is never negative.
use collaborative_text_edito.Common.{ℕ, Bool, Option, List, Bytes}

pub record AuthRequestMsg : Type 0 where
  pub action : Bytes
  pub username : Bytes
  pub password : Bytes

pub data DocListRequestMsg : Type 0 where
  doc_list_request_msg : DocListRequestMsg

pub record DocCreateRequestMsg : Type 0 where
  pub title : Bytes

pub record DocJoinRequestMsg : Type 0 where
  pub doc_id : ℕ

pub record DocLeaveRequestMsg : Type 0 where
  pub doc_id : ℕ

pub record DocDeleteRequestMsg : Type 0 where
  pub doc_id : ℕ

pub record DocShareRequestMsg : Type 0 where
  pub doc_id : ℕ
  pub target_username : Bytes
  pub role : Bytes

pub record OpEntry : Type 0 where
  pub op : Bytes
  pub pos : ℕ
  pub text : Bytes
  pub len : ℕ

pub record OperationMsg : Type 0 where
  pub doc_id : ℕ
  pub revision : ℕ
  pub ops : List OpEntry

pub record CursorUpdateMsg : Type 0 where
  pub doc_id : ℕ
  pub position : ℕ
  pub selection_start : Option ℕ
  pub selection_end : Option ℕ

pub record AuthResponseMsg : Type 0 where
  pub success : Bool
  pub user_id : ℕ
  pub error : Bytes

pub record DocListEntry : Type 0 where
  pub doc_id : ℕ
  pub title : Bytes
  pub role : Bytes
  pub online_count : ℕ

pub record DocListResponseMsg : Type 0 where
  pub documents : List DocListEntry

pub record DocCreateResponseMsg : Type 0 where
  pub success : Bool
  pub doc_id : ℕ

pub record UserInfo : Type 0 where
  pub user_id : ℕ
  pub username : Bytes
  pub color : Bytes

pub record DocJoinResponseMsg : Type 0 where
  pub success : Bool
  pub doc_id : ℕ
  pub title : Bytes
  pub content : Bytes
  pub revision : ℕ
  pub role : Bytes
  pub users : List UserInfo
  pub error : Bytes

pub record DocLeaveResponseMsg : Type 0 where
  pub success : Bool

pub record DocDeleteResponseMsg : Type 0 where
  pub success : Bool

pub record DocShareResponseMsg : Type 0 where
  pub success : Bool

pub record OperationAckMsg : Type 0 where
  pub doc_id : ℕ
  pub revision : ℕ

pub record OperationBroadcastMsg : Type 0 where
  pub doc_id : ℕ
  pub user_id : ℕ
  pub username : Bytes
  pub revision : ℕ
  pub ops : List OpEntry

pub record CursorInfo : Type 0 where
  pub user_id : ℕ
  pub username : Bytes
  pub color : Bytes
  pub position : ℕ
  pub selection_start : Option ℕ
  pub selection_end : Option ℕ

pub record CursorBroadcastMsg : Type 0 where
  pub doc_id : ℕ
  pub cursors : List CursorInfo

pub record UserJoinedMsg : Type 0 where
  pub doc_id : ℕ
  pub user_id : ℕ
  pub username : Bytes
  pub color : Bytes

pub record UserLeftMsg : Type 0 where
  pub doc_id : ℕ
  pub user_id : ℕ
  pub username : Bytes

pub record RoleChangedMsg : Type 0 where
  pub doc_id : ℕ
  pub new_role : Bytes

pub record DocDeletedMsg : Type 0 where
  pub doc_id : ℕ

pub record ServerShutdownMsg : Type 0 where
  pub message : Bytes

pub record ErrorMsg : Type 0 where
  pub code : Bytes
  pub message : Bytes

-- What a client sends, and what the server sends.
pub data Request : Type 0 where
  auth_request : AuthRequestMsg → Request
  doc_list_request : DocListRequestMsg → Request
  doc_create_request : DocCreateRequestMsg → Request
  doc_join_request : DocJoinRequestMsg → Request
  doc_leave_request : DocLeaveRequestMsg → Request
  doc_delete_request : DocDeleteRequestMsg → Request
  doc_share_request : DocShareRequestMsg → Request
  operation : OperationMsg → Request
  cursor_update : CursorUpdateMsg → Request

pub data Response : Type 0 where
  auth_response : AuthResponseMsg → Response
  doc_list_response : DocListResponseMsg → Response
  doc_create_response : DocCreateResponseMsg → Response
  doc_join_response : DocJoinResponseMsg → Response
  doc_leave_response : DocLeaveResponseMsg → Response
  doc_delete_response : DocDeleteResponseMsg → Response
  doc_share_response : DocShareResponseMsg → Response
  operation_ack : OperationAckMsg → Response
  operation_broadcast : OperationBroadcastMsg → Response
  cursor_broadcast : CursorBroadcastMsg → Response
  user_joined : UserJoinedMsg → Response
  user_left : UserLeftMsg → Response
  role_changed : RoleChangedMsg → Response
  doc_deleted : DocDeletedMsg → Response
  server_shutdown : ServerShutdownMsg → Response
  error : ErrorMsg → Response
