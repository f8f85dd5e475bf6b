-- ===== src/Service/Server.antt =====
-- server.rs: the service of a single node, straight on the store.
pub mod Agreement
use murmur.Prelude.{true, false, Option, none, some, [], ◌++◌}
use murmur.Prelude.Result.{Result, ok, err}
use murmur.Raft.Types.{Bytes}
use murmur.Service.Messages.{
  Code, Status, GetRequest, GetResponse, PutRequest, PutResponse, put_response, AppendRequest,
  AppendResponse, DeleteRequest, DeleteResponse, delete_response,
}
use murmur.Service.Store
use murmur.Service.Store.{Engine, StoreError}
use murmur.Service.State.{bytes_or_empty}
use murmur.Service.Requests.{status}

-- `map_err(|e| Status::internal(e.to_string()))`
abbrev pub internal : StoreError → Status
internal e = status Code.internal (Store.to_string e)

-- The end of a write.
respond : {Db R : Type 0} → R → Db × Result StoreError (Unit {0}) → Db × Result Status R
respond response (db, ok _) = (db, ok response)
respond response (db, err e) = (db, err (internal e))

found_response : Option Bytes → GetResponse
found_response (some v) = record { found = true; value = v }
found_response none = record { found = false; value = [] }

module _ {Db : Type 0} (sable : Engine Db) where
  unfoldable pub get : Db → GetRequest → Result Status GetResponse
  unfolding found_response
  get db r = elim (Store.get sable db r.key) [
    | ok found ↦ ok (found_response found)
    | err e ↦ err (internal e)
  ]

  unfoldable pub put : Db → PutRequest → Db × Result Status PutResponse
  unfolding respond
  put db r = respond put_response (Store.put sable db r.key r.value)

  unfoldable pub append : Db → AppendRequest → Db × Result Status AppendResponse
  unfolding respond
  append db r = elim (Store.get sable db r.key) [
    | ok old ↦
        let current = bytes_or_empty old ++ r.value in
        respond (record { value = current }) (Store.put sable db r.key current)
    | err e ↦ (db, err (internal e))
  ]

  unfoldable pub delete : Db → DeleteRequest → Db × Result Status DeleteResponse
  unfolding respond
  delete db r = respond delete_response (Store.delete sable db r.key)
