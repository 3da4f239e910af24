-- ===== src/Raft/Commit/Frequency.antt =====
-- The choice of an index in `Raft::maybe_commit_log_entries` (raft/src/server/state.rs): how often
-- each index occurs, those that occur often enough, and the one that occurs most.
use quaso.Prelude.{ℕ, suc, ◌+◌, Option, none, some, List, [], ◌∷◌, ltb, leb, ◌==◌, if◌then◌else◌}

-- `map.entry(val).and_modify(|freq| *freq += 1).or_insert(1)`
unfoldable pub bump : ℕ → List (ℕ × ℕ) → List (ℕ × ℕ)
bump val [] = (val, 1) ∷ []
bump val ((v, freq) ∷ m) = if v == val then (v, freq + 1) ∷ m else (v, freq) ∷ bump val m

-- The `fold` over the match indices.
unfoldable pub frequencies : List ℕ → List (ℕ × ℕ) → List (ℕ × ℕ)
unfolding bump
frequencies [] m = m
frequencies (val ∷ vals) m = frequencies vals (bump val m)

-- `.filter(|(_, v)| *v >= quorum_len)`
unfoldable pub often : ℕ → List (ℕ × ℕ) → List (ℕ × ℕ)
often quorum_len [] = []
often quorum_len (e ∷ m) =
    let rest = often quorum_len m in if leb quorum_len e.1 then e ∷ rest else rest

-- `max_by` keeps the later of two elements that compare equal.
unfoldable pub max_from : ℕ × ℕ → List (ℕ × ℕ) → ℕ × ℕ
max_from best [] = best
max_from best (e ∷ m) = max_from (if ltb e.1 best.1 then best else e) m

unfoldable pub max_by_count : List (ℕ × ℕ) → Option (ℕ × ℕ)
unfolding max_from
max_by_count [] = none
max_by_count (e ∷ m) = some (max_from e m)

unfoldable pub best_of : ℕ → List (ℕ × ℕ) → Option (ℕ × ℕ)
unfolding often max_by_count
best_of quorum_len m = max_by_count (often quorum_len m)

abbrev pub count : ℕ → List ℕ → ℕ
count k [] = 0
count k (x ∷ xs) = if x == k then suc (count k xs) else count k xs
