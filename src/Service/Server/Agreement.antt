-- ===== src/Service/Server/Agreement.antt =====
-- server.rs and app.rs: the two services answer alike.
use murmur.Prelude.{ℕ, ◌≡◌, arith}
use murmur.Prelude.Result.{ok}
use murmur.Raft.Types.{Bytes}
use murmur.Service.Op
use murmur.Service.Op.{Op}
use murmur.Service.Command.{Command}
use murmur.Service.Messages.{GetRequest, PutRequest, AppendRequest, DeleteRequest}
use murmur.Service.Store.{Engine}
use murmur.Service.State.{AppState, apply_committed, run}
use murmur.Service.Requests.{
  get_command, put_command, append_command, delete_command, get_reply, put_reply, append_reply,
  delete_reply,
}
use murmur.Service.Server
use murmur.Service.Server.{respond}

module _ {Db : Type 0} (sable : Engine Db) (unknown_op : ℕ → Bytes) (s : AppState Db) where
  abbrev pub applied : Command → AppState Db
  applied c = (apply_committed sable unknown_op s c).0

  abbrev pub GetAgrees : GetRequest → Type 0
  GetAgrees r =
      (get_reply (ok (apply_committed sable unknown_op s (get_command r)).1)
        ≡ Server.get sable s.store r)
      × ((applied (get_command r)).store ≡ s.store)

  abbrev pub PutAgrees : PutRequest → Type 0
  PutAgrees r =
      (put_reply
          (ok (apply_committed sable unknown_op s (put_command (record r { client_id = 0 }))).1)
        ≡ (Server.put sable s.store r).1)
      × ((applied (put_command (record r { client_id = 0 }))).store
          ≡ (Server.put sable s.store r).0)

  abbrev pub AppendAgrees : AppendRequest → Type 0
  AppendAgrees r =
      (append_reply
          (ok (apply_committed sable unknown_op s (append_command (record r { client_id = 0 }))).1)
        ≡ (Server.append sable s.store r).1)
      × ((applied (append_command (record r { client_id = 0 }))).store
          ≡ (Server.append sable s.store r).0)

  abbrev pub DeleteAgrees : DeleteRequest → Type 0
  DeleteAgrees r =
      (delete_reply
          (ok (apply_committed sable unknown_op s (delete_command (record r { client_id = 0 }))).1)
        ≡ (Server.delete sable s.store r).1)
      × ((applied (delete_command (record r { client_id = 0 }))).store
          ≡ (Server.delete sable s.store r).0)

  get_lem : (r : GetRequest) → GetAgrees r
  unfolding apply_committed run get_command get_reply Op.try_from Server.get
  get_lem r = ground arith

  put_lem : (r : PutRequest) → PutAgrees r
  unfolding apply_committed run put_command put_reply Op.try_from Server.put
  put_lem r = ground arith

  append_lem : (r : AppendRequest) → AppendAgrees r
  unfolding apply_committed run append_command append_reply Op.try_from Server.append
  append_lem r = ground arith

  delete_lem : (r : DeleteRequest) → DeleteAgrees r
  unfolding apply_committed run delete_command delete_reply Op.try_from Server.delete
  delete_lem r = ground arith

  -- On any store, even one that fails: a single node answers each of the four requests, whatever the
  -- client identity it carries, and changes its store, as the replicated service does when it applies
  -- the same request without an identity.
  pub services_agree :
      (g : GetRequest) (p : PutRequest) (a : AppendRequest) (d : DeleteRequest)
      → GetAgrees g × PutAgrees p × AppendAgrees a × DeleteAgrees d
  services_agree g p a d = (get_lem g, put_lem p, append_lem a, delete_lem d)
