-- ===== src/Service/Store.antt =====
-- store.rs: the wrapper of the engine Sable. The engine is a parameter: its three calls, and the text
-- of its errors.
use murmur.Prelude.{Option, ◌∷◌}
use murmur.Prelude.Result.{Result, ok, err}
use murmur.Raft.Types.{Bytes}

pub record Engine (Db : Type 0) : Type 0 where
  pub put : Db → Bytes → Bytes → Db × Result Bytes (Unit {0})
  pub get : Db → Bytes → Result Bytes (Option Bytes)
  pub delete : Db → Bytes → Db × Result Bytes (Unit {0})

pub data StoreError : Type 0 where
  engine : Bytes → StoreError

-- `#[error("sable engine error: {0}")]`
abbrev pub to_string : StoreError → Bytes
to_string (engine e) =
    b's' ∷ b'a' ∷ b'b' ∷ b'l' ∷ b'e' ∷ b' ' ∷ b'e' ∷ b'n' ∷ b'g' ∷ b'i' ∷ b'n' ∷ b'e' ∷ b' ' ∷ b'e'
    ∷ b'r' ∷ b'r' ∷ b'o' ∷ b'r' ∷ b':' ∷ b' ' ∷ e

-- `map_err(|e| StoreError::Engine(e.to_string()))`
abbrev pub engine_error : {A : Type 0} → Result Bytes A → Result StoreError A
engine_error (ok a) = ok a
engine_error (err e) = err (engine e)

-- `Db::open` of the engine is a parameter.
unfoldable pub open_store : {Db : Type 0} → (Bytes → Result Bytes Db) → Bytes → Result StoreError Db
open_store sable_open dir = engine_error (sable_open dir)

module _ {Db : Type 0} (sable : Engine Db) where
  abbrev pub put : Db → Bytes → Bytes → Db × Result StoreError (Unit {0})
  put db key value = let (db', r) = sable.put db key value in (db', engine_error r)

  abbrev pub get : Db → Bytes → Result StoreError (Option Bytes)
  get db key = engine_error (sable.get db key)

  abbrev pub delete : Db → Bytes → Db × Result StoreError (Unit {0})
  delete db key = let (db', r) = sable.delete db key in (db', engine_error r)
