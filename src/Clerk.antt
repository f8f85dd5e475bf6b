-- ===== src/Clerk.antt =====
-- clerk.rs: the client. Nodes, channels and the clock are a parameter: what each attempt of a loop
-- meets, by the number of the attempt. `none` is a panic, or a loop that its fuel stops.
pub mod Attempts
pub mod Tried
pub mod Returns
pub mod Connects
mod Runs
use murmur.Prelude.{
  ℕ, zero, suc, ◌+◌, ◌%◌, Bool, true, false, Option, none, some, List, [], ◌∷◌, length, map,
  get_elem?, ltb, if◌then◌else◌, u64,
}
use murmur.Prelude.Result.{Result, ok, err}
use murmur.Raft.Types.{Bytes}
use murmur.Raft.Config.{Duration, Instant, from_millis}
use murmur.Service.Messages.{
  Code, Status, RegisterResponse, GetRequest, GetResponse, PutRequest, PutResponse, AppendRequest,
  AppendResponse, DeleteRequest, DeleteResponse,
}

abbrev pub retry_budget : Duration
retry_budget = from_millis 10000

abbrev pub retry_pause : Duration
retry_pause = from_millis 50

-- What attempt `k` of an operation meets. `clock k` is the instant that it ends, before the pause.
pub record Network (Channel : Type 0) : Type 0 where
  pub connect : ℕ → Bytes → Option Channel
  pub register : ℕ → Channel → Result Status RegisterResponse
  pub get : ℕ → Channel → GetRequest → Result Status GetResponse
  pub put : ℕ → Channel → PutRequest → Result Status PutResponse
  pub append : ℕ → Channel → AppendRequest → Result Status AppendResponse
  pub delete : ℕ → Channel → DeleteRequest → Result Status DeleteResponse
  pub clock : ℕ → Instant

pub record Clerk (Channel : Type 0) : Type 0 where
  pub endpoints : List Bytes
  pub clients : List (Option Channel)
  pub leader : ℕ
  pub client_id : ℕ
  pub seq : ℕ

pub data Reply (T : Type 0) : Type 0 where
  returned : T → Reply T
  failed : Status → Reply T
  timed_out : Reply T

-- How `connect` ends; the clerk is given to the caller only if it is connected.
pub data Connection : Type 0 where
  connected no_answer no_endpoint : Connection

abbrev pub retryable_code : Code → Bool
retryable_code Code.failed_precondition = true
retryable_code Code.unavailable = true
retryable_code _ = false

abbrev pub retryable : Status → Bool
retryable status = retryable_code status.code

-- `clients[idx] = ..`
unfoldable pub set_at : {A : Type 0} → List A → ℕ → A → List A
set_at [] i a = []
set_at (x ∷ xs) zero a = a ∷ xs
set_at (x ∷ xs) (suc i) a = x ∷ set_at xs i a

-- `Result::map` on the answer of a call.
abbrev pub map_ok : {A B : Type 0} → (A → B) → Result Status A → Result Status B
map_ok f (ok a) = ok (f a)
map_ok f (err e) = err e

-- `resp.found.then_some(resp.value)`
abbrev pub found_value : GetResponse → Option Bytes
found_value r = if r.found then some r.value else none

module _ {Channel : Type 0} (net : Network Channel) where
  -- The cached client is missing: connect, and keep the client if the node can be reached.
  reconnect : Clerk Channel → Option (Option Channel) → Option (Clerk Channel × Option Channel)
  reconnect c none = none
  reconnect c (some none) = some (c, none)
  reconnect c (some (some client)) =
      some (record c { clients = set_at c.clients c.leader (some client) }, some client)

  cached_or_connect :
      ℕ → Clerk Channel → Option (Option Channel) → Option (Clerk Channel × Option Channel)
  unfolding reconnect
  cached_or_connect k c none = none
  cached_or_connect k c (some (some client)) = some (c, some client)
  cached_or_connect k c (some none) = reconnect c (elim (get_elem? c.endpoints c.leader) [
    | none ↦ none
    | some addr ↦ some (net.connect k addr)
  ])

  unfoldable pub current : ℕ → Clerk Channel → Option (Clerk Channel × Option Channel)
  unfolding cached_or_connect
  current k c = cached_or_connect k c (get_elem? c.clients c.leader)

  -- The pause is in the clock.
  unfoldable pub rotate : Clerk Channel → Clerk Channel
  rotate c = record c { leader = (c.leader + 1) % length c.endpoints }

  module _ {T : Type 0} (op : ℕ → Channel → Result Status T) where
    -- The head of a round: the answer, or `none` if there is no client.
    pub ask :
        ℕ
        → Option (Clerk Channel × Option Channel)
        → Option (Clerk Channel × Option (Result Status T))
    ask k none = none
    ask k (some (c, none)) = some (c, none)
    ask k (some (c, some client)) = some (c, some (op k client))

    unfoldable pub attempt : ℕ → Clerk Channel → Option (Clerk Channel × Option (Result Status T))
    unfolding ask
    attempt k c = ask k (current k c)

  -- The end of a round that did not answer: `ensure!`, or rotate and go on.
  abbrev pub go_on :
      {R : Type 0}
      → Bool
      → Clerk Channel
      → R
      → (Clerk Channel → Option (Clerk Channel × R))
      → Option (Clerk Channel × R)
  go_on in_time c late more = elim in_time [ true ↦ more (rotate c) | false ↦ some (c, late) ]

  module _ {T : Type 0} where
    -- The rest of a round of `retry`.
    pub settle :
        Bool
        → Option (Clerk Channel × Option (Result Status T))
        → (Clerk Channel → Option (Clerk Channel × Reply T))
        → Option (Clerk Channel × Reply T)
    settle in_time none more = none
    settle in_time (some (c, none)) more = go_on in_time c timed_out more
    settle in_time (some (c, some (ok v))) more = some (c, returned v)
    settle in_time (some (c, some (err status))) more = elim (retryable status) [
      | true ↦ go_on in_time c timed_out more
      | false ↦ some (c, failed status)
    ]

    -- The loop of `retry`, from attempt `k`.
    unfoldable pub retry_loop :
        (ℕ → Channel → Result Status T)
        → ℕ
        → ℕ
        → Instant
        → Clerk Channel
        → Option (Clerk Channel × Reply T)
    unfolding settle
    retry_loop op zero k deadline c = none
    retry_loop op (suc fuel) k deadline c =
        settle (ltb (net.clock k) deadline) (attempt op k c)
          (λ c'. retry_loop op fuel (k + 1) deadline c')

    -- `op` is given the same id and the same number in every attempt.
    unfoldable pub retry :
        (ℕ → Channel → ℕ → ℕ → Result Status T)
        → ℕ
        → Instant
        → Clerk Channel
        → Option (Clerk Channel × Reply T)
    retry op fuel now c =
        let seq = u64 (c.seq + 1) in
        retry_loop (λ k client. op k client c.client_id seq) fuel 0 (now + retry_budget)
          (record c { seq = seq })

  unfoldable pub get :
      Bytes → ℕ → Instant → Clerk Channel → Option (Clerk Channel × Reply (Option Bytes))
  get key =
      retry (λ k client client_id seq. map_ok found_value (net.get k client (record { key = key })))

  unfoldable pub put :
      Bytes → Bytes → ℕ → Instant → Clerk Channel → Option (Clerk Channel × Reply PutResponse)
  put key value = retry (λ k client client_id seq.
      net.put k client (record { key = key; value = value; client_id = client_id; seq = seq }))

  unfoldable pub append :
      Bytes → Bytes → ℕ → Instant → Clerk Channel → Option (Clerk Channel × Reply Bytes)
  append key value = retry (λ k client client_id seq.
      map_ok (λ (r : AppendResponse). r.value)
        (net.append k client
          (record { key = key; value = value; client_id = client_id; seq = seq })))

  unfoldable pub delete :
      Bytes → ℕ → Instant → Clerk Channel → Option (Clerk Channel × Reply DeleteResponse)
  delete key = retry (λ k client client_id seq.
      net.delete k client (record { key = key; client_id = client_id; seq = seq }))

  -- The rest of a round of `connect`, which goes on after any error.
  settle_register :
      Bool
      → Option (Clerk Channel × Option (Result Status RegisterResponse))
      → (Clerk Channel → Option (Clerk Channel × Connection))
      → Option (Clerk Channel × Connection)
  settle_register in_time none more = none
  settle_register in_time (some (c, some (ok resp))) more =
      some (record c { client_id = resp.client_id }, connected)
  settle_register in_time (some (c, _)) more = go_on in_time c no_answer more

  unfoldable pub connect_loop :
      ℕ → ℕ → Instant → Clerk Channel → Option (Clerk Channel × Connection)
  unfolding settle_register
  connect_loop zero k deadline c = none
  connect_loop (suc fuel) k deadline c =
      settle_register (ltb (net.clock k) deadline) (attempt net.register k c)
        (λ c'. connect_loop fuel (k + 1) deadline c')

  unfoldable pub connect : List Bytes → ℕ → Instant → Option (Clerk Channel × Connection)
  connect endpoints fuel now =
      let fresh : Clerk Channel = record {
        endpoints = endpoints;
        clients = map (λ e. none) endpoints;
        leader = 0;
        client_id = 0;
        seq = 0;
      } in
      elim endpoints [
        | [] ↦ some (fresh, no_endpoint)
        | e ∷ es ↦ connect_loop fuel 0 (now + retry_budget) fresh
      ]
