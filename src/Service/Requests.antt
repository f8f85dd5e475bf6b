-- ===== src/Service/Requests.antt =====
-- app.rs: the request handlers, `execute` and the apply loop, around a node of raft/consensus.rs.
-- `execute` proposes and then waits, so it is two functions: `begin` up to the wait, and `conclude`
-- from its end. The protobuf encoding of commands is a parameter.
pub mod Lifecycle
pub mod Applying
mod Runs
use murmur.Prelude.{
  ℕ, Bool, true, false, Option, none, some, List, [], ◌∷◌, leb, length, if◌then◌else◌,
}
use murmur.Prelude.Result.{Result, ok, err}
use murmur.Prelude.Maps.{insert_set}
use murmur.Raft.Types.{NodeId, LogIndex, Bytes, Applied, Apply}
use murmur.Raft.Log
use murmur.Raft.Consensus.State.{ConsensusModule}
use murmur.Raft.Consensus.Compaction.{snapshot}
use murmur.Raft.Driver.{propose}
use murmur.Service.Command
use murmur.Service.Command.{Command}
use murmur.Service.Messages.{
  Code, Status, RegisterResponse, GetRequest, GetResponse, PutRequest, PutResponse, put_response,
  AppendRequest, AppendResponse, DeleteRequest, DeleteResponse, delete_response,
}
use murmur.Service.Store.{Engine}
use murmur.Service.State.{AppState, Outcome, value, finished, failed, apply, remove_waiter}
use murmur.Service.Snapshot.{build_snapshot, install_snapshot}
use murmur.Service.Waiters.{next_nonce}

abbrev pub snapshot_threshold : ℕ
snapshot_threshold = 64

-- The shared state behind the handlers and the apply loop: `Inner`, with the core of its node.
pub record Inner (Db : Type 0) : Type 0 where
  pub core : ConsensusModule
  pub node_id : NodeId
  pub state : AppState Db
  pub nonce : ℕ

-- `start`, once the node runs: nothing is known of the clients and of the keys of the store.
unfoldable pub start : {Db : Type 0} → NodeId → ConsensusModule → Db → Inner Db
start node_id core store = record {
  core = core;
  node_id = node_id;
  state = record { store = store; waiters = []; sent = []; dedup = []; keys = [] };
  nonce = 0;
}

abbrev pub status : Code → Bytes → Status
status code message = record { code = code; message = message; leader_id = none }

abbrev pub not_leader_text : Bytes
not_leader_text = b'n' ∷ b'o' ∷ b't' ∷ b' ' ∷ b'l' ∷ b'e' ∷ b'a' ∷ b'd' ∷ b'e' ∷ b'r' ∷ []

unfoldable pub not_leader : {Db : Type 0} → Inner Db → Status
not_leader inner = record {
  code = Code.failed_precondition;
  message = not_leader_text;
  leader_id = inner.core.leader_id;
}

-- The text of the error is `command not committed in time; retry`, a parameter here.
module _ (too_late : Bytes) where
  unfoldable pub uncommitted : Status
  uncommitted = status Code.unavailable too_late

-- The proposal was taken, at some index, or refused: then nobody waits.
unfoldable pub proposed :
    {Db : Type 0} → Inner Db → ℕ → Option LogIndex → Inner Db × Result Status ℕ
proposed inner nonce (some index) = (inner, ok nonce)
proposed inner nonce none = (
  record inner { state = record inner.state { waiters = remove_waiter nonce inner.state.waiters } },
  err (not_leader inner),
)

-- The waiter is registered before the proposal.
unfoldable pub begin :
    {Db : Type 0} → (Command → Bytes) → Inner Db → Command → Inner Db × Result Status ℕ
unfolding proposed
begin encode inner c =
    let (nonce, counter) = next_nonce inner.node_id inner.nonce in
    let (core, index) = propose inner.core (encode (record c { nonce = nonce })) in
    proposed
      (record inner {
        core = core;
        nonce = counter;
        state = record inner.state { waiters = insert_set nonce inner.state.waiters };
      })
      nonce index

-- The wait ends with the outcome, or without one: the time is over, or the sender is gone.
unfoldable pub conclude :
    {Db : Type 0} → Bytes → Inner Db → ℕ → Option Outcome → Inner Db × Result Status Outcome
conclude too_late inner nonce (some outcome) = (inner, ok outcome)
conclude too_late inner nonce none = (
  record inner { state = record inner.state { waiters = remove_waiter nonce inner.state.waiters } },
  err (uncommitted too_late),
)

-- A random nonzero id: one draw from 1 to the largest `u64`.
unfoldable pub register : (ℕ → ℕ → ℕ) → RegisterResponse
register draw = record { client_id = draw 1 18446744073709551615 }

-- The command of each request, and the response to its outcome.
unfoldable pub get_command : GetRequest → Command
get_command r = Command.get r.key

unfoldable pub put_command : PutRequest → Command
put_command r = Command.put r.key r.value r.client_id r.seq

unfoldable pub append_command : AppendRequest → Command
append_command r = Command.append r.key r.value r.client_id r.seq

unfoldable pub delete_command : DeleteRequest → Command
delete_command r = Command.delete r.key r.client_id r.seq

unfoldable pub get_reply : Result Status Outcome → Result Status GetResponse
get_reply (ok (value (some v))) = ok (record { found = true; value = v })
get_reply (ok (value none)) = ok (record { found = false; value = [] })
get_reply (ok (failed text)) = err (status Code.internal text)
get_reply (ok finished) = ok (record { found = false; value = [] })
get_reply (err e) = err e

unfoldable pub put_reply : Result Status Outcome → Result Status PutResponse
put_reply (ok (failed text)) = err (status Code.internal text)
put_reply (ok finished) = ok put_response
put_reply (ok (value v)) = ok put_response
put_reply (err e) = err e

unfoldable pub append_reply : Result Status Outcome → Result Status AppendResponse
append_reply (ok (value (some v))) = ok (record { value = v })
append_reply (ok (value none)) = ok (record { value = [] })
append_reply (ok (failed text)) = err (status Code.internal text)
append_reply (ok finished) = ok (record { value = [] })
append_reply (err e) = err e

unfoldable pub delete_reply : Result Status Outcome → Result Status DeleteResponse
delete_reply (ok (failed text)) = err (status Code.internal text)
delete_reply (ok finished) = ok delete_response
delete_reply (ok (value v)) = ok delete_response
delete_reply (err e) = err e

-- `decode` answers `none` on bytes that are no command, `lossy` is the reading of a text of a
-- snapshot, and `unknown_op` the text of the error for an unknown code.
module _ {Db : Type 0} (sable : Engine Db) (unknown_op : ℕ → Bytes) (lossy : Bytes → Bytes)
    (decode : Bytes → Option Command) where
  -- A malformed entry is skipped.
  abbrev pub applied_state : AppState Db → Bytes → AppState Db
  applied_state s command = elim (decode command) [ none ↦ s | some c ↦ apply sable unknown_op s c ]

  -- One item of the apply stream; `none` is a panic of the core.
  unfoldable pub apply_item : Inner Db → Apply → Option (Inner Db)
  apply_item inner (Apply.command entry) =
      let state = applied_state inner.state entry.command in
      if leb snapshot_threshold (Log.len inner.core.log)
      then elim (snapshot inner.core entry.index (build_snapshot sable state)) [
        | none ↦ none
        | some core ↦ some (record inner { core = core; state = state })
      ]
      else some (record inner { state = state })
  apply_item inner (Apply.snapshot s) =
      some (record inner { state = install_snapshot sable lossy inner.state s.bytes })

  -- The loop, over what it receives.
  unfoldable pub run_apply_loop : Inner Db → List Apply → Option (Inner Db)
  run_apply_loop inner [] = some inner
  run_apply_loop inner (item ∷ items) = elim (apply_item inner item) [
    | none ↦ none
    | some inner' ↦ run_apply_loop inner' items
  ]
