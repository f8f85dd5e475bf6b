-- ===== src/Raft/Cluster/Matching.antt =====
-- Log matching: in a cluster without snapshots, two logs that have an entry of one index and one term
-- are the same up to that entry.
use mathlib.Core.Option.{some-injective, none-ne-some}
use mathlib.Core.Path.{subst}
use murmur.Prelude.{
  ℕ, zero, suc, ◌-◌, ◌≤◌, ◌≡◌, refl, sym, ap, ◌∙◌, true, none, some, List, ◌∷◌, get_elem?, arith,
}
use murmur.Prelude.Maps.{member}
use murmur.Raft.Types.{LogIndex, NodeId, LogEntry}
use murmur.Raft.Log
use murmur.Raft.Log.{Log, last_term_of}
use murmur.Raft.Log.Lookup.{get_lem}
use murmur.Raft.Rpc.{AppendEntriesArgs}
use murmur.Raft.Consensus.Election.{record_vote_reply, handle_request_vote}
use murmur.Raft.Consensus.Leader.{append_args_for}
use murmur.Raft.Consensus.Steps.{Event, exec}
use murmur.Raft.Cluster
use murmur.Raft.Cluster.{Cluster, Ballot, update, is_local, ask, answer}
use murmur.Raft.Cluster.Safety.{Step-Inv, Initial-Inv}
use murmur.Raft.Cluster.Chain.{Made, Chain-matching}
use murmur.Raft.Cluster.Paths.{Rooted}
use murmur.Raft.Cluster.Posts.{Posted, handle_append_entries-Rooted, append_args_for-Posted}
use murmur.Raft.Cluster.Moves.{
  vote-Moves, tally-Moves, log-exec, log-handle_request_vote, log-record_vote_reply,
}
use murmur.Raft.Cluster.Replicas.{
  Replicas, Step, act, vote, tally, submit, post, deliver, Initial, Reach, start, later,
}
use murmur.Raft.Cluster.Growth.{move-Grown, leader-handle_append_entries, act-Grown}
use murmur.Raft.Cluster.Creation.{GrowsOn, submit-Grown}

post-Posted :
    (made : Made) (new : AppendEntriesArgs) (posts : List AppendEntriesArgs)
    → Posted made new
    → ((k : ℕ) (args : AppendEntriesArgs) → get_elem? posts k ≡ some args → Posted made args)
    → (k : ℕ) (args : AppendEntriesArgs) → get_elem? (new ∷ posts) k ≡ some args
    → Posted made args
post-Posted made new posts first others zero args at =
    subst (Posted made) (some-injective _ _ at) first
post-Posted made new posts first others (suc k) args at = others k args at

Step-Grown :
    (members : List NodeId) {s s' : Replicas}
    → Step members s s'
    → GrowsOn members s
    → GrowsOn members s'
unfolding exec
Step-Grown members {s} (act i e {cm} inside f local plain r) (cast, made, g) =
    let cm0 = s.cluster.nodes i in
    let same = log-exec cm0 cm e f (g.elected.joined i inside).durable plain r in
    let (cast', g') =
      act-Grown members cast made s i e cm g inside f local r (rw same (g.rooted i inside))
        (λ _. same) in
    (cast', made, g')
Step-Grown members {s} (vote i args now draw inside f) (cast, made, g) =
    let cm = (handle_request_vote (s.cluster.nodes i) args now draw).0 in
    let same = log-handle_request_vote (s.cluster.nodes i) args now draw in
    let (cast', grows, inv) =
      Step-Inv members cast (Cluster.vote i args now draw inside f) g.elected in
    (
      cast',
      made,
      move-Grown members cast cast' made s i cm _ g inside
          (vote-Moves (s.cluster.nodes i) args now draw (g.elected.joined i inside).majority)
          (rw same (g.rooted i inside)) (λ _. same) grows inv,
    )
Step-Grown members {s} (tally k b at real inside) (cast, made, g) =
    let i = b.candidate in
    let cm = record_vote_reply (s.cluster.nodes i) b.voter b.reply in
    let same = log-record_vote_reply (s.cluster.nodes i) b.voter b.reply in
    let (cast', grows, inv) = Step-Inv members cast (Cluster.tally k b at real inside) g.elected in
    (
      cast',
      made,
      move-Grown members cast cast' made s i cm s.cluster.sent g inside
          (tally-Moves (s.cluster.nodes i) b.voter b.reply (g.elected.joined i inside).majority)
          (rw same (g.rooted i inside)) (λ _. same) grows inv,
    )
Step-Grown members {s} (submit i command inside f room) (cast, made, g) =
    submit-Grown members cast made s i command g inside f room
Step-Grown members {s} (post i peer inside leads) (cast, made, g) = (
  cast,
  made,
  record {
    elected = g.elected;
    rooted = g.rooted;
    posted =
        post-Posted made (append_args_for (s.cluster.nodes i) peer) s.posts
          (append_args_for-Posted made (s.cluster.nodes i) peer (g.rooted i inside)) g.posted;
    origin = g.origin;
    complete = g.complete;
  },
)
Step-Grown members {s} (deliver i k args now draw inside f at) (cast, made, g) =
    let cm0 = s.cluster.nodes i in
    let (cast', g') =
      act-Grown members cast made s i (Event.append_request args now draw) _ g inside f refl refl
        (handle_append_entries-Rooted made cm0 args now draw (g.rooted i inside)
          (g.posted k args at))
        (leader-handle_append_entries cm0 args now draw) in
    (cast', made, g')

Initial-Grown : (members : List NodeId) (s : Replicas) → Initial members s → GrowsOn members s
Initial-Grown members s init = (
  λ _ _. none,
  λ _ _. none,
  record {
    elected = Initial-Inv members s.cluster init.cluster;
    rooted = λ i inside.
        subst (Rooted (λ _ _. none)) (sym (init.empty i inside))
          (record { index = refl; term = refl; fits = omega arith; path = tt });
    posted = λ k args at. absurd (ground (arith, at, init.nothing_posted));
    origin = λ n t x h. absurd (none-ne-some _ h);
    complete = λ i inside leads n x h. absurd (none-ne-some _ h);
  },
)

pub Reach-Grown : (members : List NodeId) {s : Replicas} → Reach members s → GrowsOn members s
Reach-Grown members (start init) = Initial-Grown members _ init
Reach-Grown members (later r step) = Step-Grown members step (Reach-Grown members r)

get-entries :
    (made : Made) (log : Log) (k : ℕ)
    → Rooted made log
    → Log.get log (suc k) ≡ get_elem? log.entries k
get-entries made log k r =
    let at : suc k - log.snapshot_index - 1 ≡ k = omega (arith, r.index) in
    get_lem log (suc k) r.fits ∙ ground (arith, r.index, ap (get_elem? log.entries) at)

get-zero : (log : Log) → Log.get log 0 ≡ none
unfolding Log.get
get-zero log = ground arith

-- In a cluster that starts with empty logs and followers on working storages that hold their states,
-- and takes no snapshots, whatever is delivered, delayed, repeated, lost, or restarted while the states
-- of the members fit: if the logs of two members have an entry of the same index and the same term,
-- they have the same entries up to that index.
pub log_matching :
    (members : List NodeId) {s : Replicas} (i j : NodeId) (n : LogIndex) (e f : LogEntry)
    → Reach members s
    → member i members ≡ true
    → member j members ≡ true
    → Log.get (s.cluster.nodes i).log n ≡ some e
    → Log.get (s.cluster.nodes j).log n ≡ some f
    → e.term ≡ f.term
    → (m : LogIndex) → m ≤ n
    → Log.get (s.cluster.nodes i).log m ≡ Log.get (s.cluster.nodes j).log m
log_matching members {s} i j n e f r in_i in_j at_i at_j same zero le =
    get-zero (s.cluster.nodes i).log ∙ sym (get-zero (s.cluster.nodes j).log)
log_matching members {s} i j zero e f r in_i in_j at_i at_j same (suc m) le =
    absurd (omega (arith, le))
log_matching members {s} i j (suc n) e f r in_i in_j at_i at_j same (suc m) le =
    let (cast, made, g) = Reach-Grown members r in
    let a = (s.cluster.nodes i).log in
    let b = (s.cluster.nodes j).log in
    let ra = g.rooted i in_i in
    let rb = g.rooted j in_j in
    get-entries made a m ra
    ∙ Chain-matching made a.entries b.entries ra.path rb.path n e f
        (sym (get-entries made a n ra) ∙ at_i) (sym (get-entries made b n rb) ∙ at_j) same m
        (omega (arith, le))
    ∙ sym (get-entries made b m rb)
