-- ===== src/Raft/Transport/Exchange.antt =====
-- raft/transport.rs: a call over the wire is a call of the module behind it.
use murmur.Prelude.{◌≡◌, refl, none, List, [], ◌∷◌, Option-cases, inl, inr, arith}
use murmur.Raft.Types.{LogIndex, NodeId, LogEntry}
use murmur.Raft.Log
use murmur.Raft.Config.{Instant, Draw}
use murmur.Raft.Rpc.{RequestVoteArgs, AppendEntriesArgs, AppendEntriesReply}
use murmur.Raft.Consensus.State.{ConsensusModule}
use murmur.Raft.Consensus.Election.{handle_request_vote}
use murmur.Raft.Consensus.Follower.{handle_append_entries}
use murmur.Raft.Consensus.Leader.{handle_append_reply, next_index_after_conflict}
use murmur.Raft.Transport.{
  entries_to_pb, entries_from_pb, vote_req_to_pb, vote_req_from_pb, vote_reply_to_pb,
  vote_reply_from_pb, append_req_to_pb, append_req_from_pb, append_reply_to_pb,
  append_reply_from_pb, request_vote, append_entries,
}

entries_from_pb-entries_to_pb : (es : List LogEntry) → entries_from_pb (entries_to_pb es) ≡ es
unfolding entries_from_pb entries_to_pb
entries_from_pb-entries_to_pb [] = refl
entries_from_pb-entries_to_pb (e ∷ es) = rw (entries_from_pb-entries_to_pb es) refl

append_req_lem : (a : AppendEntriesArgs) → append_req_from_pb (append_req_to_pb a) ≡ a
unfolding append_req_from_pb append_req_to_pb
append_req_lem a = rw (entries_from_pb-entries_to_pb a.entries) refl

-- A hint without a term arrives with term 0, which the log does not have.
next_index_lem :
    (cm : ConsensusModule) (peer : NodeId) (reply : AppendEntriesReply)
    → Log.last_index_of_term cm.log 0 ≡ none
    → next_index_after_conflict cm peer (append_reply_from_pb (append_reply_to_pb reply))
      ≡ next_index_after_conflict cm peer reply
unfolding append_reply_from_pb append_reply_to_pb next_index_after_conflict
next_index_lem cm peer reply no_zero = elim (Option-cases reply.conflict_index) [
  | inl a ↦ ground (arith, no_zero, a)
  | inr (i, a) ↦ elim (Option-cases reply.conflict_term) [
    | inl b ↦ ground (arith, no_zero, a, b)
    | inr (t, b) ↦ ground (arith, no_zero, a, b)
  ]
]

handle_append_reply_lem :
    (cm : ConsensusModule) (peer : NodeId) (reply : AppendEntriesReply) (hint : LogIndex)
    → Log.last_index_of_term cm.log 0 ≡ none
    → handle_append_reply cm peer (append_reply_from_pb (append_reply_to_pb reply)) hint
      ≡ handle_append_reply cm peer reply hint
unfolding append_reply_from_pb append_reply_to_pb handle_append_reply
handle_append_reply_lem cm peer reply hint no_zero = rw (next_index_lem cm peer reply no_zero) refl

-- If the leader's log has no entry of term 0: a call of the follower over the wire leaves the
-- follower in the state of a direct call, and the leader, to which the answer comes back over the
-- wire, in the state in which the direct answer leaves it.
pub append_entries_exchange :
    (leader follower : ConsensusModule) (peer : NodeId) (args : AppendEntriesArgs) (hint : LogIndex)
    (now : Instant) (draw : Draw)
    → Log.last_index_of_term leader.log 0 ≡ none
    → let (direct, reply) = handle_append_entries follower args now draw in
      let (served, answer) = append_entries follower (append_req_to_pb args) now draw in
      (served ≡ direct)
      × (handle_append_reply leader peer (append_reply_from_pb answer) hint
          ≡ handle_append_reply leader peer reply hint)
unfolding append_entries
append_entries_exchange leader follower peer args hint now draw no_zero = rw (append_req_lem args) (
  refl,
  handle_append_reply_lem leader peer (handle_append_entries follower args now draw).1 hint no_zero,
)

-- A vote over the wire is a vote: the voter's state and the candidate's reading of the answer are
-- those of a direct call.
pub request_vote_exchange :
    (cm : ConsensusModule) (args : RequestVoteArgs) (now : Instant) (draw : Draw)
    → let (served, answer) = request_vote cm (vote_req_to_pb args) now draw in
      (served, vote_reply_from_pb answer) ≡ handle_request_vote cm args now draw
unfolding request_vote vote_req_to_pb vote_req_from_pb vote_reply_to_pb vote_reply_from_pb
request_vote_exchange cm args now draw = refl
