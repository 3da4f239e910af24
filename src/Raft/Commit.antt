-- ===== src/Raft/Commit.antt =====
-- `Raft::maybe_commit_log_entries` of raft/src/server/state.rs: the leader commits an index that a
-- quorum of its followers, itself included, is known to have.
pub mod Frequency
pub mod Quorum
pub mod Advance
mod Tests
use quaso.Prelude.{
  ℕ, ◌+◌, ◌-◌, Bool, true, false, not, Option, none, some, List, [], ◌∷◌, ltb, leb, ◌==◌,
  if◌then◌else◌,
}
use quaso.Prelude.Exec.{Exec, done, pure, gets, modify, ◌>>=◌, ◌>>◌}
use quaso.HashMap as Map
use quaso.Raft.Data.{LogIndex, leader, role_eq, Shared, set_commited_index}
use quaso.Raft.Deliver.{deliver_range}
use quaso.Raft.Node.{Raft, on_node_state, get_quorum_length}
use Frequency.{frequencies, best_of}

module _ {T : Type 0} where
  abbrev on_shared : Exec (Shared T) (Unit {0}) → Exec (Raft T) (Unit {0})
  on_shared m r = let (o, s) = m r.shared in (o, record r { shared = s })

  -- From `if min_match_index.is_none()`.
  unfoldable pub commit_to : LogIndex → Option (LogIndex × ℕ) → Exec (Raft T) (Unit {0})
  commit_to current_commit none = pure tt
  commit_to current_commit (some min_match_index) =
      if ltb current_commit min_match_index.0
      then (do
        on_shared (deliver_range (min_match_index.0 - current_commit) current_commit)
        modify (on_node_state (set_commited_index min_match_index.0)))
      else pure tt

  -- `order` is the order in which the map of frequencies iterates.
  unfoldable pub maybe_commit_log_entries :
      (List (LogIndex × ℕ) → List (LogIndex × ℕ)) → Exec (Raft T) (Unit {0})
  unfolding get_quorum_length commit_to
  maybe_commit_log_entries order r =
      if not (role_eq r.node_type leader)
      then (done tt, r)
      else commit_to r.commited_index
          (best_of (get_quorum_length r) (order (frequencies (Map.values r.match_index) []))) r
