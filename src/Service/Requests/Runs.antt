-- ===== src/Service/Requests/Runs.antt =====
-- A request at a leader and at a follower, and the theorems about requests and the apply loop.
use murmur.Prelude.{
  ℕ, ◌+◌, ◌≡◌, refl, true, false, not, ◌&&◌, Option, none, some, List, [], ◌∷◌, ◌++◌, ◌==◌, length,
  take, drop, arith,
}
use murmur.Prelude.Result.{ok, err}
use murmur.Prelude.Maps.{member}
use murmur.Raft.Types.{Bytes, Apply}
use murmur.Raft.Log
use murmur.Raft.Consensus.Samples.{led, behind}
use murmur.Raft.Consensus.Runs.{led-IsValid, behind-IsValid}
use murmur.Service.Command.{Command}
use murmur.Service.State.{AppState, apply_committed}
use murmur.Service.Runs.{table_engine, unknown_op, empty, first, other}
use murmur.Service.Requests.{Inner, not_leader, begin, applied_state, run_apply_loop}
use murmur.Service.Requests.Lifecycle.{stamped, refused, answered}
use murmur.Service.Requests.Applying.{replay, Trimmed, run_apply_loop_lem}

-- An encoding that keeps the fields, and its decoder.
abbrev encode : Command → Bytes
encode c = c.op ∷ c.client_id ∷ c.seq ∷ c.nonce ∷ length c.key ∷ (c.key ++ c.value)

abbrev decode : Bytes → Option Command
decode (op ∷ id ∷ seq ∷ nonce ∷ n ∷ rest) = some (record {
  op = op;
  key = take n rest;
  value = drop n rest;
  client_id = id;
  seq = seq;
  nonce = nonce;
})
decode _ = none

abbrev lossy : Bytes → Bytes
lossy text = text

abbrev serving : Inner (List (Bytes × Bytes))
serving = record { core = led; node_id = 1; state = empty; nonce = 4 }

abbrev following : Inner (List (Bytes × Bytes))
following = record serving { core = behind; node_id = 2 }

refused_example :
    ((begin encode following first).1 ≡ err (not_leader following))
    × ((begin encode following first).0.core ≡ behind)
    × ((n : ℕ)
        → member n (begin encode following first).0.state.waiters
          ≡ (not (n == (stamped following first).nonce) && member n []))
unfolding Log.last_index
refused_example = refused encode following first behind-IsValid (omega arith) refl

answered_example :
    ((begin encode serving first).1 ≡ ok (stamped serving first).nonce)
    × (member (stamped serving first).nonce (begin encode serving first).0.state.waiters ≡ true)
    × (Log.get (begin encode serving first).0.core.log (Log.last_index led.log + 1)
        ≡ some (record { term = 2; command = encode (stamped serving first) }))
    × ((s : AppState (List (Bytes × Bytes)))
        → member (stamped serving first).nonce s.waiters ≡ true
        → (let s' =
              applied_state table_engine unknown_op lossy decode s
                (encode (stamped serving first)) in
            (s'.sent
              ≡ (
                (stamped serving first).nonce,
                (apply_committed table_engine unknown_op s (stamped serving first)).1,
              )
                ∷ s.sent)
            × (member (stamped serving first).nonce s'.waiters ≡ false)))
unfolding Log.last_index
answered_example =
    answered encode serving first led-IsValid (omega arith) table_engine unknown_op lossy decode
      refl refl

-- Two commands, and bytes that are no command.
abbrev items : List Apply
items =
    Apply.command (record { index = 1; term = 1; command = encode first })
    ∷ Apply.command (record { index = 2; term = 1; command = 1 ∷ [] })
    ∷ Apply.command (record { index = 3; term = 2; command = encode other })
    ∷ []

run_apply_loop_lem_example :
    (inner' : Inner (List (Bytes × Bytes))) × (run_apply_loop table_engine unknown_op lossy decode
        serving items
      ≡ some inner')
    × (inner'.state ≡ replay table_engine unknown_op lossy decode empty items)
    × Trimmed table_engine unknown_op lossy decode led inner'.core
run_apply_loop_lem_example =
    run_apply_loop_lem table_engine unknown_op lossy decode items serving led-IsValid
