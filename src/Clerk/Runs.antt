-- ===== src/Clerk/Runs.antt =====
-- A clerk of two nodes, of which the second leads, and the theorems about the clerk.
use murmur.Prelude.{ℕ, zero, suc, ◌+◌, ◌*◌, ◌≡◌, refl, false, Option, none, some, [], ◌∷◌, arith}
use murmur.Prelude.Result.{Result, ok, err}
use murmur.Raft.Types.{Bytes}
use murmur.Raft.Config.{from_millis}
use murmur.Service.Messages.{Code, Status, PutResponse, put_response, delete_response}
use murmur.Clerk.{
  Network, Clerk, Reply, returned, Connection, retry_budget, set_at, current, rotate, attempt,
  retry_loop, retry, put, connect,
}
use murmur.Clerk.Attempts.{WellFormed, Paced}
use murmur.Clerk.Returns.{Justified, retry_returns}
use murmur.Clerk.Connects.{Connects, fresh, connect_returns}

abbrev not_leader : Status
not_leader = record { code = Code.failed_precondition; message = []; leader_id = some 1 }

abbrev only_leader : {T : Type 0} → T → ℕ → Result Status T
only_leader answer zero = err not_leader
only_leader answer (suc channel) = ok answer

-- A channel is the number of its node, which is its address.
abbrev node_of : Bytes → Option ℕ
node_of [] = none
node_of (n ∷ ns) = some n

abbrev net : Network ℕ
net = record {
  connect = λ k addr. node_of addr;
  register = λ k. only_leader (record { client_id = 7 });
  get = λ k channel request. only_leader (record { found = false; value = [] }) channel;
  put = λ k channel request. only_leader put_response channel;
  append = λ k channel request. only_leader (record { value = request.value }) channel;
  delete = λ k channel request. only_leader delete_response channel;
  clock = λ k. from_millis (60 * (k + 1));
}

abbrev clerk : Clerk ℕ
clerk = record {
  endpoints = (0 ∷ []) ∷ (1 ∷ []) ∷ [];
  clients = none ∷ none ∷ [];
  leader = 0;
  client_id = 7;
  seq = 4;
}

abbrev served : Clerk ℕ
served = record clerk { clients = some 0 ∷ some 1 ∷ []; leader = 1; seq = 5 }

put_run : put net (1 ∷ []) (2 ∷ []) 201 0 clerk ≡ some (served, returned put_response)
unfolding put retry retry_loop attempt current rotate set_at
put_run = refl

clerk-WellFormed : WellFormed clerk
clerk-WellFormed = record { leads = omega arith; sized = refl }

net-Paced : Paced net 0
net-Paced = (omega arith, λ k. omega arith)

abbrev put_op : ℕ → ℕ → ℕ → ℕ → Result Status PutResponse
put_op k client client_id seq =
    net.put k client (record { key = 1 ∷ []; value = 2 ∷ []; client_id = client_id; seq = seq })

retry_returns_example :
    (c' : Clerk ℕ) × (r : Reply PutResponse) × (retry net put_op 201 0 clerk ≡ some (c', r))
    × WellFormed c'
    × (c'.client_id ≡ 7)
    × (c'.seq ≡ 5)
    × Justified net
        (λ k channel. put_op k channel 7 5)
        (0 + retry_budget)
        0
        (record clerk { seq = 5 })
        c'
        r
retry_returns_example = retry_returns net put_op 0 clerk clerk-WellFormed net-Paced

connect_returns_example :
    (c' : Clerk ℕ) × (r : Connection) × (connect net clerk.endpoints 201 0 ≡ some (c', r))
    × Connects net (0 + retry_budget) 0 (fresh clerk.endpoints) c' r
connect_returns_example = connect_returns net clerk.endpoints 0 (omega arith) net-Paced
