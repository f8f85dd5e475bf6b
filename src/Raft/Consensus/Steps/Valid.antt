-- ===== src/Raft/Consensus/Steps/Valid.antt =====
-- raft/consensus.rs: the invariant of a node along everything that happens to it.
use murmur.Prelude.{◌+◌, ◌^◌, ◌<◌, ◌≡◌, refl, none, some, arith}
use murmur.Raft.Log
use murmur.Raft.Consensus.State.{ConsensusModule, restore, persistent}
use murmur.Raft.Consensus.Invariant.{
  IsValid, restore-IsValid, start_pre_election-IsValid, start_election-IsValid,
  record_pre_vote_reply-IsValid, record_vote_reply-IsValid, handle_request_vote-IsValid,
}
use murmur.Raft.Consensus.Follower.Accept.{Admissible, handle_append_entries-IsValid}
use murmur.Raft.Consensus.Leader.Replies.{
  handle_append_reply-IsValid, handle_install_snapshot_reply-IsValid, submit_command-IsValid,
}
use murmur.Raft.Consensus.Compaction.Applies.{take_applies_lem}
use murmur.Raft.Consensus.Compaction.Snapshots.{snapshot_lem, handle_install_snapshot-IsValid}
use murmur.Raft.Consensus.Steps.{Event, exec, Fit}
use murmur.Raft.Consensus.Steps.Saves.{Durable}
use murmur.Raft.Consensus.Steps.Durable.{reboot_lem}

-- What an event needs: a message does not contradict what is committed, an index is below 2 ^ 64, a
-- new entry has room in the log, and a restart finds the state on the storage.
abbrev pub Allowed : ConsensusModule → Event → Type 0
Allowed cm (Event.restart now draw) = Fit cm × Durable cm
Allowed cm (Event.append_request args now draw) = Admissible cm args
Allowed cm (Event.install_request args now draw) = args.last_included_index < 2 ^ 64
Allowed cm (Event.submit command) = Log.last_index cm.log + 1 < 2 ^ 64
Allowed cm _ = Unit

pub drained-IsValid :
    (cm : ConsensusModule)
    → IsValid cm
    → IsValid (record cm { last_applied = cm.commit_index; pending_snapshot = none })
drained-IsValid cm v = record {
  fits = v.fits;
  from_snapshot = omega (arith, v.from_snapshot, v.applied);
  applied = omega arith;
  committed = v.committed;
  majority = v.majority;
  origin = v.origin;
  elected = v.elected;
}

-- From a valid state, and where the event is allowed: no operation panics, a restart loads, and the
-- state is valid again.
pub exec-IsValid :
    (cm : ConsensusModule) (e : Event)
    → IsValid cm
    → Allowed cm e
    → (cm' : ConsensusModule) × (exec cm e ≡ some cm') × IsValid cm'
unfolding exec
exec-IsValid cm (Event.probe now draw) v _ = (_, refl, start_pre_election-IsValid cm v now draw)
exec-IsValid cm (Event.campaign now draw) v _ = (_, refl, start_election-IsValid cm v now draw)
exec-IsValid cm (Event.restart now draw) v (fit, d) = (
  restore cm.id cm.peers cm.storage cm.timing now draw (persistent cm),
  reboot_lem cm now draw fit.encodable d,
  restore-IsValid cm.id cm.peers cm.storage cm.timing now draw (persistent cm) v.fits v.origin,
)
exec-IsValid cm (Event.vote_request args now draw) v _ =
    (_, refl, handle_request_vote-IsValid cm v args now draw)
exec-IsValid cm (Event.pre_vote_reply from reply) v _ =
    (_, refl, record_pre_vote_reply-IsValid cm v from reply)
exec-IsValid cm (Event.vote_reply from reply) v _ =
    (_, refl, record_vote_reply-IsValid cm v from reply)
exec-IsValid cm (Event.append_request args now draw) v a =
    (_, refl, handle_append_entries-IsValid cm args now draw v a)
exec-IsValid cm (Event.append_reply peer reply hint) v _ =
    (_, refl, handle_append_reply-IsValid cm v peer reply hint)
exec-IsValid cm (Event.install_request args now draw) v small =
    (_, refl, handle_install_snapshot-IsValid cm args now draw v small)
exec-IsValid cm (Event.install_reply peer reply index) v _ =
    (_, refl, handle_install_snapshot_reply-IsValid cm v peer reply index)
exec-IsValid cm (Event.submit command) v room = (_, refl, submit_command-IsValid cm command v room)
exec-IsValid cm Event.apply v _ =
    let (out, taken, _) = take_applies_lem cm v in (_, rw (exec, taken), drained-IsValid cm v)
exec-IsValid cm (Event.compact index bytes) v _ =
    let (cm', at, c) = snapshot_lem cm index bytes v in (cm', at, c.valid)
