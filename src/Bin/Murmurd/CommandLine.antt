-- ===== src/Bin/Murmurd/CommandLine.antt =====
-- bin/murmurd.rs: every configuration can be written as a command line.
use murmur.Prelude.{
  ℕ, ◌≡◌, refl, ap, ◌∙◌, List, [], ◌∷◌, ◌++◌, append-nil, append_assoc, All, IsU64, arith,
}
use murmur.Prelude.Result.{ok}
use murmur.Raft.Types.{Bytes}
use murmur.Raft.Config.{Peer}
use murmur.Service.State.{same_bytes}
use murmur.Bin.Text.{codes, display}
use murmur.Bin.Text.Decimal.{IsDigit, display-IsDigit, parse_u64-display}
use murmur.Bin.Text.Parts.{Lacks, split_once-append}
use murmur.Bin.Murmurd.{Options, start, peer_of, parse_peer, parse_args, flag, number_or}

abbrev pub spec_of : Peer → Bytes
spec_of p = display p.id ++ b'@' ∷ p.addr

IsDigit-Lacks : (s : Bytes) → All IsDigit s → Lacks b'@' s
IsDigit-Lacks [] h = tt
IsDigit-Lacks (c ∷ s) ((low, high), others) = (λ e. omega (arith, high, e), IsDigit-Lacks s others)

-- A peer whose id is a `u64` and whose address is any text is read back from `id@address`.
pub parse_peer-spec_of : (p : Peer) → IsU64 p.id → parse_peer (spec_of p) ≡ ok p
unfolding parse_peer
parse_peer-spec_of p fits =
    rw
      (
        split_once-append (display p.id) p.addr b'@'
            (IsDigit-Lacks (display p.id) (display-IsDigit p.id)),
        peer_of,
        parse_u64-display p.id fits,
      )
      refl

-- `--peer` for each of them.
abbrev pub peer_args : List Peer → List Bytes → List Bytes
peer_args [] rest = rest
peer_args (p ∷ ps) rest = codes "--peer" ∷ spec_of p ∷ peer_args ps rest

abbrev pub command_line : Options → List Bytes
command_line o =
    codes "--id"
    ∷ display o.id
    ∷ codes "--raft-listen"
    ∷ o.raft_listen
    ∷ codes "--kv-listen"
    ∷ o.kv_listen
    ∷ codes "--data"
    ∷ o.data_dir
    ∷ peer_args o.peers []

parse_args-peer_args :
    (o : Options) (ps : List Peer)
    → All (λ (p : Peer). IsU64 p.id) ps
    → parse_args o (peer_args ps []) ≡ start (record o { peers = o.peers ++ ps })
unfolding parse_args flag same_bytes
parse_args-peer_args o [] fits = rw (append-nil o.peers) refl
parse_args-peer_args o (p ∷ ps) (fit, fits) = rw (parse_peer-spec_of p fit) (
    parse_args-peer_args (record o { peers = o.peers ++ (p ∷ []) }) ps fits
    ∙ ap (λ all. start (record o { peers = all })) (append_assoc o.peers (p ∷ []) ps))

number_or-display : (old n : ℕ) → IsU64 n → number_or old (display n) ≡ n
number_or-display old n fits = rw (number_or, parse_u64-display n fits) refl

-- Of options whose ids are `u64`: the command line that spells them out gives them.
pub parse_args-command_line :
    (before o : Options)
    → before.peers ≡ []
    → IsU64 o.id
    → All (λ (p : Peer). IsU64 p.id) o.peers
    → parse_args before (command_line o) ≡ start o
unfolding parse_args flag same_bytes
parse_args-command_line before o none_yet fit fits =
    ap (λ n. parse_args (record o { id = n; peers = before.peers }) (peer_args o.peers []))
      (number_or-display before.id o.id fit)
    ∙ parse_args-peer_args (record o { peers = before.peers }) o.peers fits
    ∙ rw none_yet refl
