-- ===== src/Raft/Config.antt =====
-- raft/config.rs: cluster membership and timing. A duration is a number of nanoseconds, and an
-- instant is a duration since a start.
use murmur.Prelude.{ℕ, ◌+◌, ◌*◌, ◌/◌, List, length, u64}
use murmur.Raft.Types.{NodeId, Bytes}

abbrev pub Duration : Type 0
Duration = ℕ

abbrev pub Instant : Type 0
Instant = ℕ

-- `Duration::from_millis`, and `as_millis` as a `u64`.
abbrev pub from_millis : ℕ → Duration
from_millis n = n * 1000000

abbrev pub as_millis : Duration → ℕ
as_millis d = u64 (d / 1000000)

pub record Peer : Type 0 where
  pub id : NodeId
  pub addr : Bytes

pub record ClusterConfig : Type 0 where
  pub id : NodeId
  pub peers : List Peer

unfoldable pub cluster_size : ClusterConfig → ℕ
cluster_size c = length c.peers + 1

pub record Timing : Type 0 where
  pub election_min : Duration
  pub election_max : Duration
  pub heartbeat : Duration

abbrev pub default : Timing
default = record {
  election_min = from_millis 150;
  election_max = from_millis 300;
  heartbeat = from_millis 50;
}

-- `fastrand::u64(lo..=hi)`, as one draw: a number for each range.
abbrev pub Draw : Type 0
Draw = ℕ → ℕ → ℕ

unfoldable pub random_election_timeout : Timing → Draw → Duration
random_election_timeout t draw =
    from_millis (draw (as_millis t.election_min) (as_millis t.election_max))
