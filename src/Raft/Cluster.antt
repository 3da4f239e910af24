-- ===== src/Raft/Cluster.antt =====
-- A cluster: the nodes' histories side by side. Nothing is said of the order of their steps, of the
-- messages that are lost, or of those that arrive late or twice.
pub mod Pigeonhole
pub mod Listening
pub mod Majority
pub mod Victory
mod Tests
use quaso.Prelude.{IsDistinct, All, In, ℕ, ◌+◌, ◌/◌, ◌≤◌, ◌≡◌, List, length}
use quaso.Raft.Data.{NodeId, NodeTerm}
use quaso.Raft.Node.{Raft}
use quaso.Raft.History.{Ballot, History}

-- One node, from its start to some later moment, and the votes that it gave away.
pub record Life (T : Type 0) : Type 0 where
  pub start : Raft T
  pub ballots : List Ballot
  pub end : Raft T
  pub history : History start ballots end

-- Votes of a majority of the members, each in the life of the node that gave it.
pub record IsElected {T : Type 0} (members : List NodeId) (life : NodeId → Life T)
    (candidate : NodeId) (term : NodeTerm) : Type 0 where
  pub voters : List NodeId
  pub distinct : IsDistinct voters
  pub known : All (λ v. In v members) voters
  pub quorum : length members / 2 + 1 ≤ length voters
  pub voted : All (λ v. In (candidate, term) (life v).ballots) voters
