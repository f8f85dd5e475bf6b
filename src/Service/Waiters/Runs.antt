-- ===== src/Service/Waiters/Runs.antt =====
-- A command that one caller waits for, and the theorems about it.
use murmur.Prelude.{ℕ, ◌≡◌, none, true, [], ◌∷◌}
use murmur.Prelude.Maps.{member}
use murmur.Prelude.Result.{ok}
use murmur.Raft.Types.{Bytes}
use murmur.Service.Op
use murmur.Service.Command
use murmur.Service.Command.{Command}
use murmur.Service.Store.{Engine}
use murmur.Service.State.{AppState, finished, run, apply_committed, apply}
use murmur.Service.Waiters.{apply_lem}

-- A store that keeps one value, whatever the key.
abbrev cell : Engine Bytes
cell = record {
  put = λ db key v. (v, ok tt);
  get = λ db key. ok none;
  delete = λ db key. ([], ok tt);
}

abbrev unknown_op : ℕ → Bytes
unknown_op n = n ∷ []

abbrev state : AppState Bytes
state = record { store = []; waiters = 4 ∷ 9 ∷ []; sent = []; dedup = []; keys = [] }

abbrev write : Command
write = record (Command.put (1 ∷ []) (2 ∷ []) 0 0) { nonce = 9 }

apply_lem_example :
    ((apply cell unknown_op state write).sent ≡ (9, finished) ∷ [])
    × (member 4 (apply cell unknown_op state write).waiters ≡ true)
unfolding member apply_committed run Op.try_from
apply_lem_example = apply_lem cell unknown_op state write 4

abbrev node : ℕ
node = 2
