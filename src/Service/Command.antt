-- ===== src/Service/Command.antt =====
-- command.rs and the message `Command` of proto/kv.proto. The protobuf encoding is generated code.
use murmur.Prelude.{ℕ, []}
use murmur.Raft.Types.{Bytes}
use murmur.Service.Op
use murmur.Service.Op.{op_code}

-- `op` is the `i32` of the wire, modulo 2 ^ 32.
pub record Command : Type 0 where
  pub op : ℕ
  pub key : Bytes
  pub value : Bytes
  pub client_id : ℕ
  pub seq : ℕ
  pub nonce : ℕ

abbrev pub get : Bytes → Command
get key = record { op = op_code Op.get; key = key; value = []; client_id = 0; seq = 0; nonce = 0 }

abbrev pub put : Bytes → Bytes → ℕ → ℕ → Command
put key value client_id seq = record {
  op = op_code Op.put;
  key = key;
  value = value;
  client_id = client_id;
  seq = seq;
  nonce = 0;
}

abbrev pub append : Bytes → Bytes → ℕ → ℕ → Command
append key value client_id seq = record {
  op = op_code Op.append;
  key = key;
  value = value;
  client_id = client_id;
  seq = seq;
  nonce = 0;
}

abbrev pub delete : Bytes → ℕ → ℕ → Command
delete key client_id seq = record {
  op = op_code Op.delete;
  key = key;
  value = [];
  client_id = client_id;
  seq = seq;
  nonce = 0;
}
