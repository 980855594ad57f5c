-- ===== src/Protocol.antt =====
-- include/common/protocol.h: the messages that runners and the controller exchange.
use runner_orchestrator.Base.{ℕ, List, [], ℤ, pos}

pub data MsgType : Type 0 where
  submit status shutdown ack done status_req status_resp status_end shutdown_req shutdown_ack :
      MsgType

-- A payload is its bytes up to the terminating zero.
pub record RpcMessage : Type 0 where
  pub type : MsgType
  pub sender_pid : ℤ
  pub user_id : ℤ
  pub command_id : ℤ
  pub payload : List ℕ

-- What `memset` with 0 leaves: the first message type and zeros.
abbrev pub zeroed : RpcMessage
zeroed = record {
  type = submit;
  sender_pid = pos 0;
  user_id = pos 0;
  command_id = pos 0;
  payload = [];
}
