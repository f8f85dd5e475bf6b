-- ===== src/Raft/Driver/Ticks.antt =====
-- raft/node.rs: whom a leader sends a message in a tick, and which.
use murmur.Prelude.{
  ℕ, ◌+◌, ◌≤◌, ◌<◌, ◌≡◌, ◌⊎◌, inl, inr, refl, ap, ◌∙◌, Bool, true, false, not, ◌&&◌, ◌||◌, Option,
  none, some, List, [], ◌∷◌, length, get_elem?, leb, if◌then◌else◌, All, Bool-cases, arith,
}
use murmur.Prelude.Maps.{lookup, lookup_or}
use murmur.Raft.Types.{NodeId, LogIndex, Bytes, leader}
use murmur.Raft.Log
use murmur.Raft.Log.{Log}
use murmur.Raft.Config.{Instant, Draw}
use murmur.Raft.Consensus.State.{ConsensusModule, is_leader_role, needs_snapshot, has_snapshot}
use murmur.Raft.Consensus.Invariant.{IsValid, Origin}
use murmur.Raft.Consensus.Leader.{append_args_for}
use murmur.Raft.Consensus.Leader.Sending.{next_for, append_args_for_lem, prev_eq}
use murmur.Raft.Consensus.Compaction.{install_snapshot_args, bytes_or_empty}
use murmur.Raft.Driver.{
  Driver, Outgoing, Step, is_empty, heartbeat_due, message_for, push_message, messages,
  replicate_or_idle, decide,
}

-- The next index of the peer is known, and at most one behind the log.
pub record Placed (core : ConsensusModule) (peer : NodeId) : Type 0 where
  pub next : LogIndex
  pub found : lookup peer core.next_index ≡ some next
  pub positive : 1 ≤ next
  pub inside : next ≤ Log.last_index core.log + 1

-- What a peer with this next index is sent. Without a heartbeat it is nothing if the peer has the whole
-- log, or is behind the snapshot. A peer behind the snapshot gets the snapshot, and any other peer the
-- entries from its next index to the end of the log, with the term before them.
abbrev pub Sent : ConsensusModule → Bool → LogIndex → Option Outgoing → Type 0
Sent core due next none =
    (due ≡ false) × ((next ≤ core.log.snapshot_index) ⊎ (Log.last_index core.log < next))
Sent core due next (some (Outgoing.append args)) =
    (core.log.snapshot_index < next)
    × ((due ≡ true) ⊎ (next ≤ Log.last_index core.log))
    × (args.term ≡ core.current_term)
    × (args.prev_log_index + 1 ≡ next)
    × (Log.term_at core.log args.prev_log_index ≡ some args.prev_log_term)
    × (args.prev_log_index + length args.entries ≡ Log.last_index core.log)
    × ((k : ℕ) → get_elem? args.entries k ≡ Log.get core.log (args.prev_log_index + 1 + k))
Sent core due next (some (Outgoing.snapshot args)) =
    (next ≤ core.log.snapshot_index)
    × (due ≡ true)
    × (args.term ≡ core.current_term)
    × (args.last_included_index ≡ core.log.snapshot_index)
    × (args.last_included_term ≡ core.log.snapshot_term)
    × (core.snapshot ≡ some args.bytes)

-- The messages of a tick, in the order of the peers.
pub data Sends (core : ConsensusModule) (due : Bool)
    : List NodeId → List (NodeId × Outgoing) → Type 0 where
  done : Sends core due [] []
  skip :
      {p : NodeId} {ps : List NodeId} {ms : List (NodeId × Outgoing)} (at : Placed core p)
      → Sent core due at.next none
      → Sends core due ps ms
      → Sends core due (p ∷ ps) ms
  send :
      {p : NodeId} {ps : List NodeId} {ms : List (NodeId × Outgoing)} {o : Outgoing}
      (at : Placed core p)
      → Sent core due at.next (some o)
      → Sends core due ps ms
      → Sends core due (p ∷ ps) ((p, o) ∷ ms)

-- A valid state that is behind its snapshot has one.
kept_snapshot :
    (log : Log) (o : Option Bytes)
    → Origin log o
    → 1 ≤ log.snapshot_index
    → (has_snapshot o ≡ true) × (o ≡ some (bytes_or_empty o))
kept_snapshot log none (index, term) h = absurd (omega (arith, index, h))
kept_snapshot log (some bytes) origin h = (refl, refl)

is_empty-length : {A : Type 0} (xs : List A) → is_empty xs ≡ true → length xs ≡ 0
is_empty-length [] e = refl
is_empty-length (x ∷ xs) e = ground (arith, e)

not_empty-length : {A : Type 0} (xs : List A) → is_empty xs ≡ false → 1 ≤ length xs
not_empty-length [] e = ground (arith, e)
not_empty-length (x ∷ xs) e = omega arith

module _ (core : ConsensusModule) (v : IsValid core) (leads : core.role ≡ leader) where
  module _ (peer : NodeId) (at : Placed core peer) where
    next_lem : (d : LogIndex) → lookup_or d peer core.next_index ≡ at.next
    unfolding lookup_or
    next_lem d = ground (arith, at.found)

    behind_lem : at.next ≤ core.log.snapshot_index → needs_snapshot core peer ≡ true
    unfolding needs_snapshot
    behind_lem behind =
        let (has, _) =
          kept_snapshot core.log core.snapshot v.origin (omega (arith, behind, at.positive)) in
        ground (arith, leads, has, next_lem 1, behind)

    ahead_lem : core.log.snapshot_index < at.next → needs_snapshot core peer ≡ false
    unfolding needs_snapshot
    ahead_lem ahead = ground (arith, next_lem 1, ahead)

    Sent-append :
        (due : Bool)
        → core.log.snapshot_index < at.next
        → (due ≡ true) ⊎ (at.next ≤ Log.last_index core.log)
        → Sent core due at.next (some (Outgoing.append (append_args_for core peer)))
    unfolding append_args_for
    Sent-append due ahead why =
        let same = next_lem _ in
        let above : core.log.snapshot_index < next_for core peer = omega (arith, same, ahead) in
        let inside : next_for core peer ≤ Log.last_index core.log + 1 =
          omega (arith, same, at.inside) in
        let (reach, before, _, each) = append_args_for_lem core peer v above inside in
        (ahead, why, refl, prev_eq core peer v above inside ∙ same, before, reach, each)

    Sent-snapshot :
        at.next ≤ core.log.snapshot_index
        → Sent core true at.next (some (Outgoing.snapshot (install_snapshot_args core peer)))
    unfolding install_snapshot_args
    Sent-snapshot behind =
        let (_, kept) =
          kept_snapshot core.log core.snapshot v.origin (omega (arith, behind, at.positive)) in
        (behind, refl, refl, refl, refl, kept)

    entries_left :
        core.log.snapshot_index < at.next
        → at.next + length (append_args_for core peer).entries ≡ Log.last_index core.log + 1
    entries_left ahead =
        let (_, _, _, prev, _, reach, _) = Sent-append true ahead (inl refl) in
        omega (arith, prev, reach)

    message_ahead :
        (due : Bool)
        → core.log.snapshot_index < at.next
        → Sent core due at.next (
            if due || not (is_empty (append_args_for core peer).entries)
            then some (Outgoing.append (append_args_for core peer))
            else none)
    message_ahead true ahead = Sent-append true ahead (inl refl)
    message_ahead false ahead = elim (Bool-cases (is_empty (append_args_for core peer).entries)) [
      | inl nothing ↦
          rw nothing (refl, inr (omega (arith, entries_left ahead, is_empty-length _ nothing)))
      | inr some_left ↦ rw some_left (
          Sent-append false ahead
            (inr (omega (arith, entries_left ahead, not_empty-length _ some_left))))
    ]

    message_behind :
        (due : Bool)
        → at.next ≤ core.log.snapshot_index
        → Sent core due at.next
            (if due then some (Outgoing.snapshot (install_snapshot_args core peer)) else none)
    message_behind true behind = Sent-snapshot behind
    message_behind false behind = (refl, inl behind)

    message_lem : (due : Bool) → Sent core due at.next (message_for core due peer)
    unfolding message_for
    message_lem due = elim (Bool-cases (leb at.next core.log.snapshot_index)) [
      | inl behind ↦
          let here : at.next ≤ core.log.snapshot_index = ground (arith, behind) in
          rw (behind_lem here) (message_behind due here)
      | inr ahead ↦
          let here : core.log.snapshot_index < at.next = ground (arith, ahead) in
          rw (ahead_lem here) (message_ahead due here)
    ]

  Sends-push :
      (due : Bool) (peer : NodeId) (at : Placed core peer) (o : Option Outgoing) (ps : List NodeId)
      (ms : List (NodeId × Outgoing))
      → Sent core due at.next o
      → Sends core due ps ms
      → Sends core due (peer ∷ ps) (push_message peer o ms)
  unfolding push_message
  Sends-push due peer at none ps ms sent rest = skip at sent rest
  Sends-push due peer at (some o) ps ms sent rest = send at sent rest

  messages-Sends :
      (due : Bool) (peers : List NodeId)
      → All (Placed core) peers
      → Sends core due peers (messages core due peers)
  unfolding messages
  messages-Sends due [] placed = done
  messages-Sends due (p ∷ ps) (at, others) =
      Sends-push due p at (message_for core due p) ps (messages core due ps) (message_lem p at due)
        (messages-Sends due ps others)

replicate_or_idle_lem :
    (d : Driver) (now : Instant) (ms : List (NodeId × Outgoing))
    → ((replicate_or_idle d now ms).1 ≡ (if is_empty ms then Step.idle else Step.replicate ms))
      × ((replicate_or_idle d now ms).0 ≡ record d {
        last_heartbeat = if heartbeat_due d now && not (is_empty ms) then now else d.last_heartbeat;
      })
unfolding replicate_or_idle
replicate_or_idle_lem d now [] = ground arith
replicate_or_idle_lem d now (m ∷ ms) = ground arith

-- A tick of a leader in a valid state, which knows a next index for each of its peers, at least 1 and
-- at most one behind its log. Without a due heartbeat it sends nothing to a peer that has the whole log
-- or is behind the snapshot. To a peer behind the snapshot it sends, with a due heartbeat, the boundary
-- of the log and the snapshot; to any other peer, with a due heartbeat or if the peer lacks an entry,
-- all entries from its next index on with the term before them. It idles if that is no message. The
-- core does not change, and the heartbeat clock starts anew exactly if a due heartbeat was sent.
pub decide-leader :
    (d : Driver) (now : Instant) (draw : Draw)
    → IsValid d.core
    → d.core.role ≡ leader
    → All (Placed d.core) d.peer_ids
    → (ms : List (NodeId × Outgoing)) × Sends d.core (heartbeat_due d now) d.peer_ids ms
      × ((decide d now draw).1 ≡ (if is_empty ms then Step.idle else Step.replicate ms))
      × ((decide d now draw).0 ≡ record d {
        last_heartbeat = if heartbeat_due d now && not (is_empty ms) then now else d.last_heartbeat;
      })
unfolding decide
decide-leader d now draw v leads placed =
    let ms = messages d.core (heartbeat_due d now) d.peer_ids in
    let (step, next) = replicate_or_idle_lem d now ms in
    let leading : is_leader_role d.core.role ≡ true = ap is_leader_role leads in
    (
      ms,
      messages-Sends d.core v leads (heartbeat_due d now) d.peer_ids placed,
      rw leading step,
      rw leading next,
    )
