-- ===== src/Raft/Commit/Tests.antt =====
-- Commits of a leader of three nodes, two of which have its third entry.
use mathlib.Core.List.Perm
use quaso.Prelude.{ℕ, ◌≡◌, ◌≢◌, refl, List, [], ◌∷◌, arith}
use quaso.HashMap as Map
use quaso.Prelude.Exec.{done}
use quaso.Raft.Data.{LogIndex}
use quaso.Raft.Deliver.{deliver_range}
use quaso.Raft.Node.{get_quorum_length}
use quaso.Raft.Commit.{maybe_commit_log_entries}
use quaso.Raft.Commit.Frequency.{frequencies, best_of}
use quaso.Raft.Commit.Quorum.{IsOrder}
use quaso.Raft.Commit.Advance.{IsCommit, commited_at, quorum-commits, move-IsCommit}
use quaso.Raft.Samples.{ahead, node, entry}

abbrev as_it_is : List (LogIndex × ℕ) → List (LogIndex × ℕ)
as_it_is m = m

as_it_is-IsOrder : IsOrder as_it_is
as_it_is-IsOrder m = Perm.refl m

quorum-commits_example :
    maybe_commit_log_entries as_it_is (node ahead) ≡ (done tt, commited_at 3 (node ahead))
unfolding Map.values get_quorum_length
quorum-commits_example =
    quorum-commits as_it_is as_it_is-IsOrder (node ahead) 3 refl (omega arith) (omega arith)
      (omega arith) (omega arith)

moves : (maybe_commit_log_entries as_it_is (node ahead)).1.commited_index ≢ 2
unfolding maybe_commit_log_entries deliver_range Map.values frequencies best_of
moves = λ e. absurd (omega arith)

move-IsCommit_example : (k : LogIndex) × IsCommit as_it_is as_it_is-IsOrder (node ahead) k
move-IsCommit_example = move-IsCommit as_it_is as_it_is-IsOrder (node ahead) moves

-- The third entry is delivered.
delivers_third : (maybe_commit_log_entries as_it_is (node ahead)).1.delivered ≡ entry 30 2 ∷ []
unfolding maybe_commit_log_entries deliver_range Map.values frequencies best_of
delivers_third = refl
