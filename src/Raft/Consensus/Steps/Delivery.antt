-- ===== src/Raft/Consensus/Steps/Delivery.antt =====
-- raft/consensus.rs: the stream of what a node hands to its state machine between two restarts.
use mathlib.Core.Option.{some-injective}
use murmur.Prelude.{
  ◌+◌, ◌≤◌, ◌≡◌, refl, sym, ap, ◌∙◌, Option, none, some, Bool, true, false, List, [], ◌∷◌, ◌++◌,
  arith, Bool-cases, inl, inr, ltb, leb,
}
use mathlib.Core.Path.{subst, subst₂}
use murmur.Raft.Types.{LogIndex, Apply, Snapshot}
use murmur.Raft.Log.{Log}
use murmur.Raft.Config.{Instant, Draw}
use murmur.Raft.Rpc.{InstallSnapshotArgs}
use murmur.Raft.Consensus.Election.{
  start_pre_election, start_election, record_pre_vote_reply, record_vote_reply, handle_request_vote,
}
use murmur.Raft.Consensus.Compaction.Snapshots.{snapshot_lem}
use murmur.Raft.Consensus.State.{ConsensusModule, persist}
use murmur.Raft.Consensus.Invariant.{IsValid}
use murmur.Raft.Consensus.Leader.{
  submit_command, handle_append_reply, handle_install_snapshot_reply,
}
use murmur.Raft.Consensus.Follower.Accept.{commit_index-follow}
use murmur.Raft.Consensus.Follower.{follow, handle_append_entries}
use murmur.Raft.Consensus.Compaction.{
  take_applies, pending, applied_entry, install, handle_install_snapshot,
}
use murmur.Raft.Consensus.Compaction.Applies.{InOrder, take_applies_lem}
use murmur.Raft.Consensus.Steps.{Event, exec}
use murmur.Raft.Consensus.Steps.Valid.{Allowed, exec-IsValid, drained-IsValid}
use murmur.Raft.Consensus.Steps.Cursor.{
  Still, follow-Still, snapshot-Still, submit_command-Still, start_election-Still,
  handle_request_vote-Still, pre_vote_reply-Still, handle_append_entries-Still,
  handle_append_reply-Still, handle_install_snapshot_reply-Still, start_pre_election-Still,
  vote_reply-Still,
}

-- Neither a restart nor the drain itself.
abbrev pub goes_on : Event → Bool
goes_on (Event.restart now draw) = false
goes_on Event.apply = false
goes_on _ = true

-- Events and drains in any order, and all that the drains hand over.
pub data Rounds : ConsensusModule → List Apply → ConsensusModule → Type 0 where
  stop : {cm : ConsensusModule} → Rounds cm [] cm
  event :
      {cm cm' cm'' : ConsensusModule} {out : List Apply} (e : Event)
      → goes_on e ≡ true
      → Allowed cm e
      → exec cm e ≡ some cm'
      → Rounds cm' out cm''
      → Rounds cm out cm''
  drain :
      {cm cm' cm'' : ConsensusModule} {now out : List Apply}
      → take_applies cm ≡ some (cm', now)
      → Rounds cm' out cm''
      → Rounds cm (now ++ out) cm''

-- The commands come one index after another, from the one behind `from` to `upto`; a snapshot moves
-- on to its own index, and never back.
abbrev pub Follows : LogIndex → List Apply → LogIndex → Type 0
Follows from [] upto = from ≡ upto
Follows from (Apply.command a ∷ out) upto = (a.index ≡ from + 1) × Follows (from + 1) out upto
Follows from (Apply.snapshot s ∷ out) upto =
    (from ≤ s.last_included_index) × Follows s.last_included_index out upto

-- Where the state machine is, as the apply cursor of the node sees it.
abbrev pub Level : LogIndex → LogIndex → Option Snapshot → Type 0
Level at last_applied none = at ≡ last_applied
Level at last_applied (some s) = (at ≤ last_applied) × (s.last_included_index ≡ last_applied)

Follows-append :
    (from mid upto : LogIndex) (out out' : List Apply)
    → Follows from out mid
    → Follows mid out' upto
    → Follows from (out ++ out') upto
Follows-append from mid upto [] out' h k = rw h k
Follows-append from mid upto (Apply.command a ∷ out) out' (e, h) k =
    (e, Follows-append (from + 1) mid upto out out' h k)
Follows-append from mid upto (Apply.snapshot s ∷ out) out' (e, h) k =
    (e, Follows-append s.last_included_index mid upto out out' h k)

InOrder-Follows :
    (log : Log) (from upto : LogIndex) (out : List Apply)
    → InOrder log from upto out
    → Follows from out upto
unfolding applied_entry
InOrder-Follows log from upto [] h = h
InOrder-Follows log from upto (a ∷ out) ((e, got, at), h) =
    rw at (refl, InOrder-Follows log (from + 1) upto out h)

pending-Follows :
    (at last upto : LogIndex) (p : Option Snapshot) (out : List Apply)
    → Level at last p
    → Follows last out upto
    → Follows at (pending p ++ out) upto
pending-Follows at last upto none out l h = rw l h
pending-Follows at last upto (some s) out (le, e) h = rw e (le, h)

-- The level, of a state.
abbrev pub LevelOf : LogIndex → ConsensusModule → Type 0
LevelOf at cm = Level at cm.last_applied cm.pending_snapshot

Still-Level :
    (cm cm' : ConsensusModule) (at : LogIndex) → Still cm cm' → LevelOf at cm → LevelOf at cm'
Still-Level cm cm' at (a, p) l = subst₂ (λ n o. Level at n o) (sym a) (sym p) l

Level-behind : (at last : LogIndex) (p : Option Snapshot) → Level at last p → at ≤ last
Level-behind at last none l = omega (arith, l)
Level-behind at last (some s) (le, e) = le

-- An installed snapshot lies ahead of the cursor, and waits at the cursor's new place.
install_request-Level :
    (cm : ConsensusModule) (at : LogIndex) (args : InstallSnapshotArgs) (now : Instant)
    (draw : Draw)
    → IsValid cm
    → LevelOf at cm
    → LevelOf at (handle_install_snapshot cm args now draw).0
unfolding handle_install_snapshot install persist
install_request-Level cm at args now draw v l =
    let behind = Level-behind at cm.last_applied cm.pending_snapshot l in
    let followed = follow cm args.term args.leader_id now draw in
    let same = commit_index-follow cm args.term args.leader_id now draw in
    elim (Bool-cases (ltb args.term cm.current_term)) [
      | inl old ↦ rw old l
      | inr current ↦ elim (Bool-cases (leb args.last_included_index followed.commit_index)) [
        | inl stale ↦
            rw (current, stale)
              (Still-Level cm followed at (follow-Still cm args.term args.leader_id now draw) l)
        | inr ahead ↦ rw (current, ahead) (ground (arith, ahead, same, behind, v.applied), refl)
      ]
    ]

module _ (cm : ConsensusModule) (at : LogIndex) (v : IsValid cm) (l : LevelOf at cm) where
  stays :
      (next : ConsensusModule)
      → Still cm next
      → (cm' : ConsensusModule) × (some next ≡ some cm') × LevelOf at cm'
  stays next s = (next, refl, Still-Level cm next at s l)

  -- The level after any event that is no drain and no restart.
  exec-Level :
      (e : Event)
      → goes_on e ≡ true
      → Allowed cm e
      → (cm' : ConsensusModule) × (exec cm e ≡ some cm') × LevelOf at cm'
  unfolding exec
  exec-Level (Event.probe now draw) g a =
      stays (start_pre_election cm now draw).0 (start_pre_election-Still cm now draw)
  exec-Level (Event.campaign now draw) g a =
      stays (start_election cm now draw).0 (start_election-Still cm now draw)
  exec-Level (Event.vote_request args now draw) g a =
      stays (handle_request_vote cm args now draw).0 (handle_request_vote-Still cm args now draw)
  exec-Level (Event.pre_vote_reply from reply) g a =
      stays (record_pre_vote_reply cm from reply) (pre_vote_reply-Still cm from reply)
  exec-Level (Event.vote_reply from reply) g a =
      stays (record_vote_reply cm from reply) (vote_reply-Still cm from reply)
  exec-Level (Event.append_request args now draw) g a =
      stays (handle_append_entries cm args now draw).0
        (handle_append_entries-Still cm args now draw)
  exec-Level (Event.append_reply peer reply hint) g a =
      stays (handle_append_reply cm peer reply hint) (handle_append_reply-Still cm peer reply hint)
  exec-Level (Event.install_request args now draw) g a = (
    (handle_install_snapshot cm args now draw).0,
    refl,
    install_request-Level cm at args now draw v l,
  )
  exec-Level (Event.install_reply peer reply index) g a =
      stays (handle_install_snapshot_reply cm peer reply index)
        (handle_install_snapshot_reply-Still cm peer reply index)
  exec-Level (Event.submit command) g a =
      stays (submit_command cm command).0 (submit_command-Still cm command)
  exec-Level (Event.compact index bytes) g a =
      let (cm', ran, _) = snapshot_lem cm index bytes v in
      (cm', ran, Still-Level cm cm' at (snapshot-Still cm cm' index bytes ran) l)
  exec-Level Event.apply g a = absurd (ground (arith, g))
  exec-Level (Event.restart now draw) g a = absurd (ground (arith, g))

-- Between two restarts of a node that starts in a valid state, at one level with its state machine,
-- and while every event is allowed: all that the node hands over, drain by drain, is the commands of
-- the log one index after another, interrupted only by snapshots that move on. At the end the node is
-- valid and again at one level with the state machine.
pub delivered_in_order :
    (cm cm' : ConsensusModule) (out : List Apply) (at : LogIndex)
    → IsValid cm
    → LevelOf at cm
    → Rounds cm out cm'
    → (upto : LogIndex) × Follows at out upto × LevelOf upto cm' × IsValid cm'
delivered_in_order cm cm' out at v l stop = (at, refl, l, v)
delivered_in_order cm cm' out at v l (event e g a r rounds) =
    let (next, ran, valid) = exec-IsValid cm e v a in
    let (next', ran', l') = exec-Level cm at v l e g a in
    delivered_in_order _ cm' out at (subst IsValid (some-injective _ _ (sym ran ∙ r)) valid)
      (subst (LevelOf at) (some-injective _ _ (sym ran' ∙ r)) l') rounds
delivered_in_order cm cm'' _ at v l (drain {cm' = mid} {now = now} {out = out} r rounds) =
    let (fresh, taken, ordered) = take_applies_lem cm v in
    let same = some-injective _ _ (sym taken ∙ r) in
    let (upto, rest, l', v') =
      delivered_in_order mid cm'' out cm.commit_index
        (subst IsValid (ap (λ p. p.0) same) (drained-IsValid cm v))
        (subst (LevelOf cm.commit_index) (ap (λ p. p.0) same) refl) rounds in
    let handed =
      pending-Follows at cm.last_applied cm.commit_index cm.pending_snapshot fresh l
        (InOrder-Follows cm.log cm.last_applied cm.commit_index fresh ordered) in
    (
      upto,
      Follows-append at cm.commit_index upto now out
          (subst (λ o. Follows at o cm.commit_index) (ap (λ p. p.1) same) handed) rest,
      l',
      v',
    )
