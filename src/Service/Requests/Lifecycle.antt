-- ===== src/Service/Requests/Lifecycle.antt =====
-- app.rs: a request from its proposal to its answer.
use murmur.Prelude.{
  ℕ, ◌+◌, ◌^◌, ◌<◌, ◌≡◌, refl, ap, ◌∙◌, true, false, not, ◌&&◌, Option, none, some, ◌∷◌, ◌==◌,
  if◌then◌else◌, arith,
}
use murmur.Prelude.Result.{ok, err}
use murmur.Prelude.Maps.{member, insert_set, member-insert_set}
use murmur.Raft.Types.{Bytes, LogIndex}
use murmur.Raft.Log
use murmur.Raft.Consensus.State.{ConsensusModule, is_leader_role}
use murmur.Raft.Consensus.Invariant.{IsValid}
use murmur.Raft.Consensus.Leader.{submit_command}
use murmur.Raft.Consensus.Leader.Replies.{submit_command_lem}
use murmur.Raft.Driver.{propose}
use murmur.Service.Command.{Command}
use murmur.Service.Store.{Engine}
use murmur.Service.State.{AppState, apply_committed}
use murmur.Service.Waiters.{next_nonce, member-remove_waiter, apply_lem}
use murmur.Service.Requests.{Inner, not_leader, proposed, begin, applied_state}

-- The command that the request becomes, with the nonce of its proposal.
abbrev pub stamped : {Db : Type 0} → Inner Db → Command → Command
stamped inner c = record c { nonce = (next_nonce inner.node_id inner.nonce).0 }

module _ {Db : Type 0} (encode : Command → Bytes) (inner : Inner Db) (c : Command)
    (v : IsValid inner.core) (room : Log.last_index inner.core.log + 1 < 2 ^ 64) where
  abbrev nonce : ℕ
  nonce = (stamped inner c).nonce

  index-submit :
      (submit_command inner.core (encode (stamped inner c))).1
      ≡ (if is_leader_role inner.core.role then some (Log.last_index inner.core.log + 1) else none)
  index-submit = (submit_command_lem inner.core (encode (stamped inner c)) 0 v room).0

  -- The state while the proposal is made.
  abbrev waiting : Inner Db
  waiting = record inner {
    core = (submit_command inner.core (encode (stamped inner c))).0;
    nonce = (next_nonce inner.node_id inner.nonce).1;
    state = record inner.state { waiters = insert_set nonce inner.state.waiters };
  }

  begin_lem :
      (index : Option LogIndex)
      → (submit_command inner.core (encode (stamped inner c))).1 ≡ index
      → begin encode inner c ≡ proposed waiting nonce index
  unfolding begin propose
  begin_lem index e = ap (proposed waiting nonce) e

  begin-leader : is_leader_role inner.core.role ≡ true → begin encode inner c ≡ (waiting, ok nonce)
  unfolding proposed
  begin-leader leads =
      begin_lem (some (Log.last_index inner.core.log + 1)) (index-submit ∙ ground (arith, leads))

  core-submit_command :
      is_leader_role inner.core.role ≡ false
      → (submit_command inner.core (encode (stamped inner c))).0 ≡ inner.core
  unfolding submit_command
  core-submit_command follows = ground (arith, follows)

  -- On a valid node with room in its log that does not lead: the request is refused at once, with the
  -- leader that the node knows. The node does not change, and nobody waits for the nonce.
  pub refused :
      is_leader_role inner.core.role ≡ false
      → ((begin encode inner c).1 ≡ err (not_leader inner))
        × ((begin encode inner c).0.core ≡ inner.core)
        × ((n : ℕ)
            → member n (begin encode inner c).0.state.waiters
              ≡ (not (n == nonce) && member n inner.state.waiters))
  unfolding proposed not_leader
  refused follows =
      let nothing = begin_lem none (index-submit ∙ ground (arith, follows)) in
      rw nothing (
        ap (λ (cm : ConsensusModule). err (not_leader (record inner { core = cm })))
            (core-submit_command follows),
        core-submit_command follows,
        λ n. ground (
          arith,
          member-remove_waiter nonce n (insert_set nonce inner.state.waiters),
          member-insert_set nonce n inner.state.waiters,
        ),
      )

  module _ (sable : Engine Db) (unknown_op : ℕ → Bytes) (lossy : Bytes → Bytes)
      (decode : Bytes → Option Command)
      (readable : decode (encode (stamped inner c)) ≡ some (stamped inner c)) where
    -- On a valid leader with room in its log, and where the command can be read back from its
    -- encoding: the request waits under its nonce, and its command stands behind the log in the
    -- leader's term. Whenever that entry is applied to a state in which the nonce still waits, the
    -- caller is sent the outcome of the command there, and waits no more.
    pub answered :
        is_leader_role inner.core.role ≡ true
        → ((begin encode inner c).1 ≡ ok nonce)
          × (member nonce (begin encode inner c).0.state.waiters ≡ true)
          × (Log.get (begin encode inner c).0.core.log (Log.last_index inner.core.log + 1)
              ≡ some
                  (record { term = inner.core.current_term; command = encode (stamped inner c) }))
          × ((s : AppState Db)
              → member nonce s.waiters ≡ true
              → (let s' =
                    applied_state sable unknown_op lossy decode s (encode (stamped inner c)) in
                  (s'.sent
                    ≡ (nonce, (apply_committed sable unknown_op s (stamped inner c)).1) ∷ s.sent)
                  × (member nonce s'.waiters ≡ false)))
    answered leads =
        let last = Log.last_index inner.core.log + 1 in
        let (_, stands) = submit_command_lem inner.core (encode (stamped inner c)) last v room in
        rw (begin-leader leads) (
          refl,
          ground (arith, member-insert_set nonce nonce inner.state.waiters),
          ground (arith, stands, leads),
          λ s waits.
              let (sent, gone) = apply_lem sable unknown_op s (stamped inner c) nonce in
              rw (applied_state, readable) (ground (arith, sent, waits), ground (arith, gone)),
        )
