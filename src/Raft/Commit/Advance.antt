-- ===== src/Raft/Commit/Advance.antt =====
-- What a leader's commit does, and when it happens.
use quaso.Prelude.{
  ℕ, ◌+◌, ◌-◌, ◌≤◌, ◌<◌, ◌≡◌, ◌≢◌, refl, ap, true, some, List, [], ◌++◌, arith, length, take, drop,
  Bool-cases, Option-cases, inl, inr, lt→ltb, le→ltb,
}
use native.Mathlib.Decide.{dec_lt, dec_le}
use quaso.Prelude.Exec.{Outcome, done}
use quaso.HashMap as Map
use quaso.Raft.Data.{LogIndex, NodeRole, follower, candidate, leader, role_eq, set_commited_index}
use quaso.Raft.Deliver.{deliver_range_done, deliver_range_panic}
use quaso.Raft.Node.{Raft, get_quorum_length}
use quaso.Raft.Commit.{commit_to, maybe_commit_log_entries}
use quaso.Raft.Commit.Frequency.{frequencies, best_of, count}
use quaso.Raft.Commit.Quorum.{IsOrder, best_of_sound, best_of_quorum}

module _ {T : Type 0} where
  -- The node with its commit index at `k` and what comes before `k` delivered.
  abbrev pub commited_at : LogIndex → Raft T → Raft T
  commited_at k r = record r {
    shared = record {
      state = set_commited_index k r.state;
      delivered = r.delivered ++ take (k - r.commited_index) (drop r.commited_index r.log);
    };
  }

  commit_to_done :
      (r : Raft T) (e : LogIndex × ℕ)
      → r.commited_index < e.0
      → e.0 ≤ length r.log
      → commit_to r.commited_index (some e) r ≡ (done tt, commited_at e.0 r)
  unfolding commit_to
  commit_to_done r e behind within = rw (
    lt→ltb r.commited_index e.0 behind,
    deliver_range_done (e.0 - r.commited_index) r.commited_index r.shared (omega arith),
  )

  -- An index past the end of the log panics, and the commit index stays.
  commit_to_panic :
      (r : Raft T) (e : LogIndex × ℕ)
      → r.commited_index < e.0
      → length r.log < e.0
      → (commit_to r.commited_index (some e) r).1.commited_index ≡ r.commited_index
  unfolding commit_to
  commit_to_panic r e behind short = rw (
    lt→ltb r.commited_index e.0 behind,
    deliver_range_panic (e.0 - r.commited_index) r.commited_index r.shared (omega arith)
        (omega arith),
  )

  commit_to_level :
      (r : Raft T) (e : LogIndex × ℕ)
      → e.0 ≤ r.commited_index
      → commit_to r.commited_index (some e) r ≡ (done tt, r)
  unfolding commit_to
  commit_to_level r e h = rw (le→ltb r.commited_index e.0 h)

  -- If the commit index moves at all, then forwards, inside the log, and to the index given.
  commit_to_moves :
      (r : Raft T) (e : LogIndex × ℕ)
      → (commit_to r.commited_index (some e) r).1.commited_index ≢ r.commited_index
      → (r.commited_index < e.0)
        × (e.0 ≤ length r.log)
        × (commit_to r.commited_index (some e) r ≡ (done tt, commited_at e.0 r))
  commit_to_moves r e moves = elim (dec_lt r.commited_index e.0) [
    | no level ↦ absurd (
        moves (
          ap (λ (x : Outcome (Unit {0}) × Raft T). x.1.commited_index)
            (commit_to_level r e (omega arith))))
    | yes behind ↦ elim (dec_le e.0 (length r.log)) [
      | yes within ↦ (behind, within, commit_to_done r e behind within)
      | no short ↦ absurd (moves (commit_to_panic r e behind (omega arith)))
    ]
  ]

  quorum-lt :
      (r : Raft T) (n : ℕ)
      → n ≤ length r.connections + 1
      → n < get_quorum_length r + get_quorum_length r
  unfolding get_quorum_length
  quorum-lt r n h = omega arith

  quorum-pos : (r : Raft T) → 0 < get_quorum_length r
  unfolding get_quorum_length
  quorum-pos r = omega arith

role_of : (x : NodeRole) → role_eq x leader ≡ true → x ≡ leader
role_of follower h = cc
role_of candidate h = cc
role_of leader h = refl

module _ {T : Type 0} (order : List (LogIndex × ℕ) → List (LogIndex × ℕ)) (is_order : IsOrder order)
    (r : Raft T) where
  -- A leader has at most one match index per connection and one for itself, and a quorum of the
  -- match indices equal `k`, which is past the commit index and inside the log. Then it commits
  -- `k` and delivers the entries up to it, in whatever order its map of frequencies is
  -- iterated.
  pub quorum-commits :
      (k : LogIndex)
      → r.node_type ≡ leader
      → length (Map.values r.match_index) ≤ length r.connections + 1
      → get_quorum_length r ≤ count k (Map.values r.match_index)
      → r.commited_index < k
      → k ≤ length r.log
      → maybe_commit_log_entries order r ≡ (done tt, commited_at k r)
  unfolding maybe_commit_log_entries
  quorum-commits k role few quorum behind within =
      rw
        (
          ap (λ x. role_eq x leader) role,
          best_of_quorum order is_order (get_quorum_length r) (Map.values r.match_index) k
              (quorum-pos r) quorum (quorum-lt r _ few),
        )
        (commit_to_done r (k, count k (Map.values r.match_index)) behind within)

  -- Nothing happens where the commit index is not behind.
  pub quorum-level :
      (k : LogIndex)
      → r.node_type ≡ leader
      → length (Map.values r.match_index) ≤ length r.connections + 1
      → get_quorum_length r ≤ count k (Map.values r.match_index)
      → k ≤ r.commited_index
      → maybe_commit_log_entries order r ≡ (done tt, r)
  unfolding maybe_commit_log_entries commit_to
  quorum-level k role few quorum level = rw (
    ap (λ x. role_eq x leader) role,
    best_of_quorum order is_order (get_quorum_length r) (Map.values r.match_index) k (quorum-pos r)
        quorum (quorum-lt r _ few),
    le→ltb r.commited_index k level,
  )

  -- A commit index that moves has a quorum.
  pub record IsCommit (k : LogIndex) : Type 0 where
    pub by_leader : r.node_type ≡ leader
    pub forwards : r.commited_index < k
    pub within : k ≤ length r.log
    pub quorum : get_quorum_length r ≤ count k (Map.values r.match_index)
    pub result : maybe_commit_log_entries order r ≡ (done tt, commited_at k r)

  -- If the commit step moves the commit index of a node, whatever the order of iteration, then
  -- the node leads, the step returns, and it moved to an index further on, inside the log, that
  -- a quorum of the match indices equal; exactly the entries in between are delivered.
  pub move-IsCommit :
      (maybe_commit_log_entries order r).1.commited_index ≢ r.commited_index
      → (k : LogIndex) × IsCommit k
  unfolding maybe_commit_log_entries
  move-IsCommit moves = elim (Bool-cases (role_eq r.node_type leader)) [
    | inr other ↦ absurd (moves (rw other))
    | inl lead ↦
        elim (Option-cases
          (best_of (get_quorum_length r) (order (frequencies (Map.values r.match_index) [])))) [
            | inl nothing ↦ absurd (moves (rw (lead, nothing)))
            | inr (e, chosen) ↦
                let (exact, enough) =
                  best_of_sound order is_order (get_quorum_length r) (Map.values r.match_index)
                    {e = e} chosen in
                let (behind, within, result) =
                  commit_to_moves r e (λ same. moves (rw (lead, chosen) same)) in
                (
                  e.0,
                  record {
                    by_leader = role_of r.node_type lead;
                    forwards = behind;
                    within = within;
                    quorum = rw exact at enough;
                    result = rw (lead, chosen) result;
                  },
                )
          ]
  ]
