-- ===== src/Raft/Consensus/Leader/Replies.antt =====
-- The leader's handlers of raft/consensus.rs: commands, replies, and the invariant.
use murmur.Prelude.{
  ◌+◌, ◌^◌, ◌≤◌, ◌<◌, ◌≡◌, refl, ap, none, some, List, ◌==◌, if◌then◌else◌, arith, Bool-cases, inl,
  inr, ◌&&◌,
}
use murmur.Raft.Types.{Term, LogIndex, NodeId, Bytes, LogEntry}
use murmur.Raft.Log
use murmur.Raft.Log.{Log}
use murmur.Raft.Log.Edit.{append-Fits, last_index-append, get-append}
use murmur.Raft.Rpc.{AppendEntriesReply, InstallSnapshotReply}
use murmur.Raft.Consensus.State.{ConsensusModule, is_leader_role, persist}
use murmur.Raft.Consensus.Election.{yield_to}
use murmur.Raft.Consensus.Invariant.{IsValid, Origin-same}
use murmur.Raft.Consensus.Leader.{
  maybe_advance_commit, submit_command, advance_peer, handle_append_reply,
  handle_install_snapshot_reply,
}
use murmur.Raft.Consensus.Leader.Commit.{maybe_advance_commit-Advanced}

module _ (cm : ConsensusModule) (v : IsValid cm) where
  raise_commit-IsValid :
      (target : LogIndex)
      → cm.commit_index ≤ target
      → target ≤ Log.last_index cm.log
      → IsValid (record cm { commit_index = target })
  raise_commit-IsValid target up inside = record {
    fits = v.fits;
    from_snapshot = v.from_snapshot;
    applied = omega (arith, v.applied);
    committed = inside;
    majority = v.majority;
    origin = v.origin;
    elected = v.elected;
  }

  pub maybe_advance_commit-IsValid : IsValid (maybe_advance_commit cm)
  maybe_advance_commit-IsValid =
      let a = maybe_advance_commit-Advanced cm in
      rw a.only_commit (
        raise_commit-IsValid a.target (omega (arith, a.moved))
          (omega (arith, a.moved, v.committed)))

  yield_to-IsValid : (term : Term) → IsValid (yield_to cm term)
  unfolding yield_to
  yield_to-IsValid term = ground arith

-- New views of a peer's log leave the invariant alone.
peers-IsValid :
    (cm : ConsensusModule) (next matched : List (NodeId × LogIndex))
    → IsValid cm
    → IsValid (record cm { next_index = next; match_index = matched })
peers-IsValid cm next matched v = ground arith

module _ (cm : ConsensusModule) (v : IsValid cm) (peer : NodeId) where
  advance_peer-IsValid : (hint : LogIndex) → IsValid (advance_peer cm peer hint)
  unfolding advance_peer
  advance_peer-IsValid hint = maybe_advance_commit-IsValid _ (peers-IsValid cm _ _ v)

  -- On a valid state no reply of a peer, whatever it says and whatever the hint, breaks the
  -- invariant.
  pub handle_append_reply-IsValid :
      (reply : AppendEntriesReply) (hint : LogIndex)
      → IsValid (handle_append_reply cm peer reply hint)
  unfolding handle_append_reply
  handle_append_reply-IsValid reply hint = ground (
    arith,
    yield_to-IsValid cm v reply.term,
    advance_peer-IsValid hint,
    peers-IsValid cm _ cm.match_index v,
  )

  pub handle_install_snapshot_reply-IsValid :
      (reply : InstallSnapshotReply) (last : LogIndex)
      → IsValid (handle_install_snapshot_reply cm peer reply last)
  unfolding handle_install_snapshot_reply
  handle_install_snapshot_reply-IsValid reply last =
      ground (arith, yield_to-IsValid cm v reply.term, advance_peer-IsValid last)

-- The log of a leader that has taken a command.
abbrev grown : ConsensusModule → Bytes → Log
grown cm command = (Log.append cm.log (record { term = cm.current_term; command = command })).0

grown-IsValid :
    (cm : ConsensusModule) (command : Bytes)
    → IsValid cm
    → Log.last_index cm.log + 1 < 2 ^ 64
    → IsValid (persist (record cm { log = grown cm command }))
unfolding persist
grown-IsValid cm command v room =
    let e : LogEntry = record { term = cm.current_term; command = command } in
    let end = last_index-append cm.log e v.fits room in
    record {
      fits = append-Fits cm.log e v.fits room;
      from_snapshot = unfold Log.append in v.from_snapshot;
      applied = v.applied;
      committed = omega (arith, end, v.committed);
      majority = v.majority;
      origin =
          Origin-same cm.log (grown cm command) cm.snapshot (unfold Log.append in refl)
            (unfold Log.append in refl) v.origin;
      elected = v.elected;
    }

pub submit_command-IsValid :
    (cm : ConsensusModule) (command : Bytes)
    → IsValid cm
    → Log.last_index cm.log + 1 < 2 ^ 64
    → IsValid (submit_command cm command).0
unfolding submit_command
submit_command-IsValid cm command v room = ground (
  arith,
  v,
  maybe_advance_commit-IsValid (persist (record cm { log = grown cm command }))
      (grown-IsValid cm command v room),
)

log-maybe_advance_commit : (cm : ConsensusModule) → (maybe_advance_commit cm).log ≡ cm.log
log-maybe_advance_commit cm =
    ap (λ (c : ConsensusModule). c.log) (maybe_advance_commit-Advanced cm).only_commit

module _ (cm : ConsensusModule) (command : Bytes) (i : LogIndex) (v : IsValid cm)
    (room : Log.last_index cm.log + 1 < 2 ^ 64) where
  log-submit_command :
      (submit_command cm command).0.log
      ≡ (if is_leader_role cm.role then grown cm command else cm.log)
  unfolding submit_command persist
  log-submit_command = elim (Bool-cases (is_leader_role cm.role)) [
    | inl yes_leader ↦ rw yes_leader (log-maybe_advance_commit _)
    | inr no_leader ↦ rw no_leader
  ]

  index-submit_command :
      (submit_command cm command).1
      ≡ (if is_leader_role cm.role then some (Log.last_index cm.log + 1) else none)
  unfolding submit_command
  index-submit_command =
      let e : LogEntry = record { term = cm.current_term; command = command } in
      elim (Bool-cases (is_leader_role cm.role)) [
        | inl yes_leader ↦ rw yes_leader (ap some (get-append cm.log e 0 v.fits room).0)
        | inr no_leader ↦ rw no_leader
      ]

  -- On a valid state with room for one more index: a leader puts the command, with its own term,
  -- behind its log, answers the index, and keeps every other entry. Any other node keeps its log
  -- and answers none.
  pub submit_command_lem :
      ((submit_command cm command).1
        ≡ (if is_leader_role cm.role then some (Log.last_index cm.log + 1) else none))
      × (Log.get (submit_command cm command).0.log i ≡ (
          if is_leader_role cm.role && i == Log.last_index cm.log + 1
          then some (record { term = cm.current_term; command = command })
          else Log.get cm.log i))
  submit_command_lem =
      let e : LogEntry = record { term = cm.current_term; command = command } in
      (
        index-submit_command,
        rw log-submit_command (ground (arith, (get-append cm.log e i v.fits room).1)),
      )
