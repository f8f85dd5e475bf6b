-- ===== src/Raft/Cluster/Replicas.antt =====
-- A cluster of nodes of raft/consensus.rs without snapshots, whose leaders take commands and build the
-- AppendEntries that the members receive: in any order, more than once, late, or never.
use murmur.Prelude.{ℕ, ◌+◌, ◌^◌, ◌<◌, ◌≡◌, true, false, some, List, [], ◌∷◌, length, get_elem?}
use murmur.Prelude.Maps.{member}
use murmur.Raft.Types.{NodeId, Bytes, leader}
use murmur.Raft.Log
use murmur.Raft.Log.{Log}
use murmur.Raft.Config.{Instant, Draw}
use murmur.Raft.Rpc.{RequestVoteArgs, AppendEntriesArgs}
use murmur.Raft.Consensus.State.{ConsensusModule}
use murmur.Raft.Consensus.Follower.{handle_append_entries}
use murmur.Raft.Consensus.Leader.{append_args_for, submit_command}
use murmur.Raft.Consensus.Steps.{Event, exec, Fit}
use murmur.Raft.Cluster
use murmur.Raft.Cluster.{Cluster, Ballot, update, is_local, ask, answer}
use murmur.Raft.Cluster.Moves.{is_plain}

-- The messages of replication that were ever built, the latest first.
pub record Replicas : Type 0 where
  pub cluster : Cluster
  pub posts : List AppendEntriesArgs

abbrev pub put : Replicas → NodeId → ConsensusModule → Replicas
put s i cm = record s { cluster = record s.cluster { nodes = update s.cluster.nodes i cm } }

pub data Step (members : List NodeId) (s : Replicas) : Replicas → Type 0 where
  act :
      (i : NodeId) (e : Event) {cm : ConsensusModule}
      → member i members ≡ true
      → Fit (s.cluster.nodes i)
      → is_local e ≡ true
      → is_plain e ≡ true
      → exec (s.cluster.nodes i) e ≡ some cm
      → Step members s (put s i cm)
  vote :
      (i : NodeId) (args : RequestVoteArgs) (now : Instant) (draw : Draw)
      → member i members ≡ true
      → Fit (s.cluster.nodes i)
      → Step members s (record s { cluster = ask s.cluster i args now draw })
  tally :
      (k : ℕ) (b : Ballot)
      → get_elem? s.cluster.sent k ≡ some b
      → b.pre_vote ≡ false
      → member b.candidate members ≡ true
      → Step members s (record s { cluster = answer s.cluster b })
  submit :
      (i : NodeId) (command : Bytes)
      → member i members ≡ true
      → Fit (s.cluster.nodes i)
      → length (s.cluster.nodes i).log.entries + 1 < 2 ^ 64
      → Step members s (put s i (submit_command (s.cluster.nodes i) command).0)
  post :
      (i peer : NodeId)
      → member i members ≡ true
      → (s.cluster.nodes i).role ≡ leader
      → Step members s (record s { posts = append_args_for (s.cluster.nodes i) peer ∷ s.posts })
  deliver :
      (i : NodeId) (k : ℕ) (args : AppendEntriesArgs) (now : Instant) (draw : Draw)
      → member i members ≡ true
      → Fit (s.cluster.nodes i)
      → get_elem? s.posts k ≡ some args
      → Step members s (put s i (handle_append_entries (s.cluster.nodes i) args now draw).0)

-- A cluster at its start, with empty logs.
pub record Initial (members : List NodeId) (s : Replicas) : Type 0 where
  pub cluster : Cluster.Initial members s.cluster
  pub nothing_posted : s.posts ≡ []
  pub empty : (i : NodeId) → member i members ≡ true → (s.cluster.nodes i).log ≡ Log.new

pub data Reach (members : List NodeId) : Replicas → Type 0 where
  start : {s : Replicas} → Initial members s → Reach members s
  later : {s s' : Replicas} → Reach members s → Step members s s' → Reach members s'
