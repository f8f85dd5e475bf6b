-- ===== src/Service/Messages.antt =====
-- The requests and responses of proto/kv.proto, and what the program uses of the errors of gRPC: a code,
-- a text, and the leader that `x-leader-id` names.
use murmur.Prelude.{ℕ, Bool, Option}
use murmur.Raft.Types.{NodeId, Bytes}

pub data Code : Type 0 where
  failed_precondition unavailable internal : Code
  other : ℕ → Code

pub record Status : Type 0 where
  pub code : Code
  pub message : Bytes
  pub leader_id : Option NodeId

pub record RegisterResponse : Type 0 where
  pub client_id : ℕ

pub record GetRequest : Type 0 where
  pub key : Bytes

pub record GetResponse : Type 0 where
  pub found : Bool
  pub value : Bytes

pub record PutRequest : Type 0 where
  pub key : Bytes
  pub value : Bytes
  pub client_id : ℕ
  pub seq : ℕ

pub data PutResponse : Type 0 where
  put_response : PutResponse

pub record AppendRequest : Type 0 where
  pub key : Bytes
  pub value : Bytes
  pub client_id : ℕ
  pub seq : ℕ

pub record AppendResponse : Type 0 where
  pub value : Bytes

pub record DeleteRequest : Type 0 where
  pub key : Bytes
  pub client_id : ℕ
  pub seq : ℕ

pub data DeleteResponse : Type 0 where
  delete_response : DeleteResponse
