-- ===== src/Raft/Driver/Rounds.antt =====
-- raft/node.rs: the loop of the driver, its ticks among all else that happens to the node, and what
-- it hands to the state machine.
use mathlib.Core.Option.{some-injective, none-ne-some}
use mathlib.Core.Path.{subst}
use murmur.Prelude.{
  ◌≡◌, ◌⊎◌, inl, inr, refl, ap, true, Option, none, some, List, [], ◌∷◌, ◌++◌, arith, Bool-cases,
}
use murmur.Raft.Types.{NodeId, LogIndex, Apply}
use murmur.Raft.Config.{Instant, Draw}
use murmur.Raft.Consensus.State.{ConsensusModule, is_leader_role, election_timed_out}
use murmur.Raft.Consensus.Election.{pre_vote_succeeded}
use murmur.Raft.Consensus.Invariant.{IsValid}
use murmur.Raft.Consensus.Compaction.{take_applies}
use murmur.Raft.Consensus.Steps.{Event, exec}
use murmur.Raft.Consensus.Steps.Valid.{Allowed}
use murmur.Raft.Consensus.Steps.Delivery.{
  Rounds, stop, event, drain, goes_on, Follows, LevelOf, delivered_in_order,
}
use murmur.Raft.Driver.{Driver, Outgoing, replicate_or_idle, decide, hand_over}

-- The two parts of a round, each under its lock, and the events that the driver shares the core with:
-- a call that is served, the answer that a task folds back, a proposal, a snapshot of the state machine.
pub data Run : Driver → List Apply → Driver → Type 0 where
  halt : {d : Driver} → Run d [] d
  act :
      {d d' : Driver} {out : List Apply} (now : Instant) (draw : Draw)
      → Run (decide d now draw).0 out d'
      → Run d out d'
  deliver :
      {d d' d'' : Driver} {handed out : List Apply}
      → hand_over d ≡ some (d', handed)
      → Run d' out d''
      → Run d (handed ++ out) d''
  meanwhile :
      {d d' : Driver} {core : ConsensusModule} {out : List Apply} (e : Event)
      → goes_on e ≡ true
      → Allowed d.core e
      → exec d.core e ≡ some core
      → Run (record d { core = core }) out d'
      → Run d out d'

core-replicate_or_idle :
    (d : Driver) (now : Instant) (ms : List (NodeId × Outgoing))
    → (replicate_or_idle d now ms).0.core ≡ d.core
unfolding replicate_or_idle
core-replicate_or_idle d now [] = refl
core-replicate_or_idle d now (m ∷ ms) = ground arith

-- A tick decides for a probe, for a campaign, or leaves the core alone.
core-decide :
    (d : Driver) (now : Instant) (draw : Draw)
    → ((decide d now draw).0.core ≡ d.core)
      ⊎ ((exec d.core (Event.probe now draw) ≡ some (decide d now draw).0.core)
          ⊎ (exec d.core (Event.campaign now draw) ≡ some (decide d now draw).0.core))
unfolding decide exec
core-decide d now draw = elim (Bool-cases (is_leader_role d.core.role)) [
  | inl leads ↦ inl (rw leads (core-replicate_or_idle d now _))
  | inr follows ↦ elim (Bool-cases (pre_vote_succeeded d.core)) [
    | inl promised ↦ inr (inr (rw (follows, promised) refl))
    | inr unsure ↦ elim (Bool-cases (election_timed_out d.core now)) [
      | inl late ↦ inr (inl (rw (follows, unsure, late) refl))
      | inr early ↦ inl (rw (follows, unsure, early) refl)
    ]
  ]
]

decide-Rounds :
    (d : Driver) (now : Instant) (draw : Draw) (out : List Apply) (cm : ConsensusModule)
    → Rounds (decide d now draw).0.core out cm
    → Rounds d.core out cm
decide-Rounds d now draw out cm r = elim (core-decide d now draw) [
  | inl same ↦ subst (λ c. Rounds c out cm) same r
  | inr (inl probed) ↦ event (Event.probe now draw) refl tt probed r
  | inr (inr campaigned) ↦ event (Event.campaign now draw) refl tt campaigned r
]

handed-some :
    (d d' : Driver) (handed : List Apply) (o : Option (ConsensusModule × List Apply))
    → take_applies d.core ≡ o
    → hand_over d ≡ some (d', handed)
    → o ≡ some (d'.core, handed)
unfolding hand_over
handed-some d d' handed none e h = absurd (none-ne-some _ (rw (hand_over, e) at h))
handed-some d d' handed (some (core, applied)) e h =
    ap (λ (q : Driver × List Apply). some (q.0.core, q.1))
      (some-injective _ _ (rw (hand_over, e) at h))

run-Rounds : (d d' : Driver) (out : List Apply) → Run d out d' → Rounds d.core out d'.core
run-Rounds d d' out halt = stop
run-Rounds d d' out (act now draw rest) =
    decide-Rounds d now draw out d'.core (run-Rounds (decide d now draw).0 d' out rest)
run-Rounds d d' out (meanwhile {core = core} e g a r rest) =
    event e g a r (run-Rounds (record d { core = core }) d' out rest)
run-Rounds d d' _ (deliver {d' = mid} {handed = handed} {out = out} h rest) =
    drain (handed-some d mid handed _ refl h) (run-Rounds mid d' out rest)

-- However the rounds of a driver interleave with what else happens to its node, which starts in a valid
-- state at one level with its state machine, while every event is allowed and the node does not
-- restart: the state machine is handed commands of consecutive indices, interrupted only by snapshots
-- that move on, and ends at one level with the node, which is valid.
pub run_in_order :
    (d d' : Driver) (out : List Apply) (at : LogIndex)
    → IsValid d.core
    → LevelOf at d.core
    → Run d out d'
    → (upto : LogIndex) × Follows at out upto × LevelOf upto d'.core × IsValid d'.core
run_in_order d d' out at v l r =
    delivered_in_order d.core d'.core out at v l (run-Rounds d d' out r)
