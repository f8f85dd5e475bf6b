-- ===== src/Raft/Cluster/Moves.antt =====
-- How a member moves between its roles: terms only grow, only a new term makes a candidate, and only a
-- candidate, or a new term, makes a leader.
use murmur.Prelude.{
  zero, suc, ◌+◌, ◌^◌, ◌≤◌, ◌<◌, ◌≡◌, ◌⊎◌, inl, inr, refl, ap, true, false, Bool, some, arith,
}
use murmur.Raft.Types.{Term, LogIndex, NodeId, candidate, leader}
use murmur.Raft.Config.{Instant, Draw}
use murmur.Raft.Rpc.{RequestVoteArgs, RequestVoteReply}
use murmur.Raft.Consensus.State.{
  ConsensusModule, persist, step_down, become_leader, maybe_become_leader, restore,
}
use murmur.Raft.Consensus.Election.{
  start_pre_election, record_pre_vote_reply, start_election, campaign, yield_to, cast_vote,
  handle_request_vote, record_vote_reply,
}
use murmur.Raft.Consensus.Leader.{advance_peer, handle_append_reply, handle_install_snapshot_reply}
use murmur.Raft.Consensus.Leader.Commit.{maybe_advance_commit-Advanced}
use murmur.Raft.Consensus.Compaction.{take_applies}
use murmur.Raft.Consensus.Steps.{Event, exec, Fit}
use murmur.Raft.Consensus.Steps.Saves.{Durable}
use murmur.Raft.Consensus.Steps.Durable.{reboot_lem}
use murmur.Raft.Consensus.Steps.Promises.{
  HasVoted, exec-HasVoted, handle_request_vote-HasVoted, record_vote_reply-HasVoted,
}
use murmur.Raft.Cluster.Tally.{HasMajority, Quiet, is_quiet, exec-Quiet, handle_request_vote-Quiet}
use murmur.Raft.Cluster.Members.{start_election_lem}
use murmur.Raft.Cluster.Ballots.{record_vote_reply_lem}

pub record Moves (cm cm' : ConsensusModule) : Type 0 where
  pub term_up : cm.current_term ≤ cm'.current_term
  pub stands :
      cm'.role ≡ candidate
      → ((cm.role ≡ candidate) × (cm'.current_term ≡ cm.current_term))
        ⊎ (cm.current_term < cm'.current_term)
  pub leads :
      cm'.role ≡ leader
      → ((cm.role ≡ leader) × (cm'.current_term ≡ cm.current_term))
        ⊎ (((cm.role ≡ candidate) × (cm'.current_term ≡ cm.current_term))
            ⊎ (cm.current_term < cm'.current_term))

-- What binds votes binds terms: two different votes cannot both be the vote of one term.
term_up_from :
    (cm cm' : ConsensusModule) (t : Term)
    → ((u : Term) (c : NodeId) → HasVoted u c cm → HasVoted u c cm')
    → cm.current_term ≡ t
    → t ≤ cm'.current_term
term_up_from cm cm' zero keep at = omega arith
term_up_from cm cm' (suc u) keep at =
    let past : u < cm.current_term = omega (arith, at) in
    ground (arith, keep u 0 (inl past), keep u 1 (inl past))

term_up_lem :
    (cm cm' : ConsensusModule)
    → ((t : Term) (c : NodeId) → HasVoted t c cm → HasVoted t c cm')
    → cm.current_term ≤ cm'.current_term
term_up_lem cm cm' keep = term_up_from cm cm' cm.current_term keep refl

Quiet-Moves :
    (cm cm' : ConsensusModule) → cm.current_term ≤ cm'.current_term → Quiet cm cm' → Moves cm cm'
Quiet-Moves cm cm' up q = record {
  term_up = up;
  stands = λ h. ground (arith, h, q);
  leads = λ h. ground (arith, h, q);
}

pub quiet-Moves :
    (cm cm' : ConsensusModule) (e : Event)
    → HasMajority cm
    → Fit cm
    → Durable cm
    → is_quiet e ≡ true
    → exec cm e ≡ some cm'
    → Moves cm cm'
quiet-Moves cm cm' e m f d q r =
    Quiet-Moves cm cm' (term_up_lem cm cm' (λ t c h. exec-HasVoted t c cm cm' e f d h r))
      (exec-Quiet cm cm' e m f d q r)

pub campaign-Moves :
    (cm : ConsensusModule) (now : Instant) (draw : Draw)
    → cm.current_term + 1 < 2 ^ 64
    → Moves cm (start_election cm now draw).0
campaign-Moves cm now draw room =
    let (_, _, _, term, _, _, _) = start_election_lem cm now draw room in
    record {
      term_up = omega (arith, term);
      stands = λ h. inr (omega (arith, term));
      leads = λ h. inr (inr (omega (arith, term)));
    }

pub vote-Moves :
    (cm : ConsensusModule) (args : RequestVoteArgs) (now : Instant) (draw : Draw)
    → HasMajority cm
    → Moves cm (handle_request_vote cm args now draw).0
vote-Moves cm args now draw m =
    let cm' = (handle_request_vote cm args now draw).0 in
    Quiet-Moves cm cm'
      (term_up_lem cm cm' (λ t c h. handle_request_vote-HasVoted t c cm h args now draw))
      (handle_request_vote-Quiet cm m args now draw)

pub tally-Moves :
    (cm : ConsensusModule) (from : NodeId) (reply : RequestVoteReply)
    → HasMajority cm
    → Moves cm (record_vote_reply cm from reply)
tally-Moves cm from reply m = elim (record_vote_reply_lem cm from reply m) [
  | inl quiet ↦
      let cm' = record_vote_reply cm from reply in
      Quiet-Moves cm cm'
        (term_up_lem cm cm' (λ t c h. record_vote_reply-HasVoted t c cm h from reply)) quiet
  | inr n ↦ record {
    term_up = omega (arith, n.same_term);
    stands = λ h. inl (n.stood, n.same_term);
    leads = λ h. inr (inl (n.stood, n.same_term));
  }
]

-- The events that leave the log alone.
abbrev pub is_plain : Event → Bool
is_plain (Event.append_request args now draw) = false
is_plain (Event.install_request args now draw) = false
is_plain (Event.submit command) = false
is_plain (Event.compact index bytes) = false
is_plain _ = true

log-yield_to : (cm : ConsensusModule) (term : Term) → (yield_to cm term).log ≡ cm.log
unfolding yield_to step_down persist
log-yield_to cm term = ground arith

log-advance_peer :
    (cm : ConsensusModule) (peer : NodeId) (hint : LogIndex)
    → (advance_peer cm peer hint).log ≡ cm.log
unfolding advance_peer
log-advance_peer cm peer hint =
    ap (λ (c : ConsensusModule). c.log) (maybe_advance_commit-Advanced _).only_commit

pub log-handle_request_vote :
    (cm : ConsensusModule) (args : RequestVoteArgs) (now : Instant) (draw : Draw)
    → (handle_request_vote cm args now draw).0.log ≡ cm.log
unfolding handle_request_vote cast_vote step_down persist
log-handle_request_vote cm args now draw = ground arith

pub log-record_vote_reply :
    (cm : ConsensusModule) (from : NodeId) (reply : RequestVoteReply)
    → (record_vote_reply cm from reply).log ≡ cm.log
unfolding record_vote_reply maybe_become_leader become_leader
log-record_vote_reply cm from reply = ground (arith, log-yield_to cm reply.term)

pub log-exec :
    (cm cm' : ConsensusModule) (e : Event)
    → Fit cm
    → Durable cm
    → is_plain e ≡ true
    → exec cm e ≡ some cm'
    → cm'.log ≡ cm.log
unfolding exec
log-exec cm cm' (Event.probe now draw) f d p r = unfold start_pre_election in ground (arith, r)
log-exec cm cm' (Event.campaign now draw) f d p r =
    unfold start_election campaign maybe_become_leader become_leader persist in ground (arith, r)
log-exec cm cm' (Event.restart now draw) f d p r =
    unfold restore in ground (arith, r, reboot_lem cm now draw f.encodable d)
log-exec cm cm' (Event.vote_request args now draw) f d p r =
    ground (arith, r, log-handle_request_vote cm args now draw)
log-exec cm cm' (Event.vote_reply from reply) f d p r =
    ground (arith, r, log-record_vote_reply cm from reply)
log-exec cm cm' (Event.pre_vote_reply from reply) f d p r =
    unfold record_pre_vote_reply in ground (arith, r, log-yield_to cm reply.term)
log-exec cm cm' (Event.append_reply peer reply hint) f d p r =
    unfold handle_append_reply in
    ground (arith, r, log-yield_to cm reply.term, log-advance_peer cm peer hint)
log-exec cm cm' (Event.install_reply peer reply index) f d p r =
    unfold handle_install_snapshot_reply in
    ground (arith, r, log-yield_to cm reply.term, log-advance_peer cm peer index)
log-exec cm cm' Event.apply f d p r = unfold take_applies in ground (arith, r)
log-exec cm cm' (Event.append_request args now draw) f d p r = cc
log-exec cm cm' (Event.install_request args now draw) f d p r = cc
log-exec cm cm' (Event.submit command) f d p r = cc
log-exec cm cm' (Event.compact index bytes) f d p r = cc
