-- ===== src/Service/PromiseRuns.antt =====
-- The service on a store that is an association list: what it promises, and a single node beside it.
use murmur.Prelude.{◌≡◌, refl, none, [], ◌∷◌}
use murmur.Prelude.Maps.{lookup}
use murmur.Service.Refinement.{
  Abstract, Sound, Shows, answers, promised_answers, answers_as_promised,
}
use murmur.Service.Server.Agreement.{
  GetAgrees, PutAgrees, AppendAgrees, DeleteAgrees, services_agree,
}
use murmur.Service.Runs.{
  table_engine, table_engine-Lawful, unknown_op, empty, first, other, leader_state, find,
}

table_engine-Sound : Sound table_engine
table_engine-Sound = record {
  lawful = table_engine-Lawful;
  put_ok = λ db key v. refl;
  delete_ok = λ db key. refl;
}

abbrev blank : Abstract
blank = record { holds = λ key. none; answered = λ id. none }

empty-Shows : Shows table_engine unknown_op table_engine-Sound empty blank
unfolding find lookup
empty-Shows = record { stored = λ k. refl; remembered = λ id. refl }

-- An append, a write of another client, and the append again.
answers_as_promised_example :
    answers table_engine unknown_op table_engine-Sound empty (first ∷ other ∷ first ∷ [])
    ≡ promised_answers unknown_op blank (first ∷ other ∷ first ∷ [])
answers_as_promised_example =
    answers_as_promised table_engine unknown_op table_engine-Sound (first ∷ other ∷ first ∷ [])
      empty blank empty-Shows

services_agree_example :
    GetAgrees table_engine unknown_op leader_state (record { key = b'k' ∷ [] })
    × PutAgrees table_engine unknown_op leader_state
        (record { key = b'k' ∷ []; value = b'v' ∷ []; client_id = 7; seq = 9 })
    × AppendAgrees table_engine unknown_op leader_state
        (record { key = b'k' ∷ []; value = b'v' ∷ []; client_id = 7; seq = 1 })
    × DeleteAgrees table_engine unknown_op leader_state
        (record { key = b'k' ∷ []; client_id = 8; seq = 6 })
services_agree_example =
    services_agree table_engine unknown_op leader_state (record { key = b'k' ∷ [] })
      (record { key = b'k' ∷ []; value = b'v' ∷ []; client_id = 7; seq = 9 })
      (record { key = b'k' ∷ []; value = b'v' ∷ []; client_id = 7; seq = 1 })
      (record { key = b'k' ∷ []; client_id = 8; seq = 6 })
