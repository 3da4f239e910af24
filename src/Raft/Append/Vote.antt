-- ===== src/Raft/Append/Vote.antt =====
-- What `append_entries` does to the term and the vote, on every outcome.
use quaso.Prelude.{
  ℕ, zero, suc, ◌-◌, ◌≤◌, ◌≡◌, refl, ap, ◌∙◌, true, false, ◌&&◌, some, arith, ltb, leb, ◌==◌,
  length, get_elem?, usize_sub, Bool-cases, inl, inr, Option-cases, le→ltb, and_false, ◌⊎◌,
}
use quaso.Prelude.Exec.{Outcome, done, panic, gets, modify, continue, ◌>>◌}
use quaso.Raft.Data.{
  NodeId, LogIndex, State, Shared, Timer, AppendEntriesRequest, set_log, set_commited_index,
}
use quaso.Raft.Deliver.{deliver_range, send}
use quaso.Raft.Append.{
  append_response, on_state, is_stale, prev_mismatch, accept, write_log, follow_commit,
  append_entries,
}

-- The term does not go back, and within a term the vote stays.
pub record KeepsVote {T : Type 0} (s s' : State T) : Type 0 where
  pub term : s.node_term ≤ s'.node_term
  pub vote :
      s'.node_term ≡ s.node_term → (v : NodeId) → s.voted_for ≡ some v → s'.voted_for ≡ some v

module _ {T : Type 0} where
  pub KeepsVote-refl : (s : State T) → KeepsVote s s
  KeepsVote-refl s = record { term = omega arith; vote = λ e v h. h }

  deliver_range-state : (n i : ℕ) (s : Shared T) → (deliver_range n i s).1.state ≡ s.state
  unfolding deliver_range
  deliver_range-state zero i s = refl
  deliver_range-state (suc n) i s = elim (Option-cases (get_elem? s.log i)) [
    | inl out ↦ rw out
    | inr (e, at) ↦ rw at (deliver_range-state n (suc i) (send e s))
  ]

  -- The test on the entry before the request only reads.
  prev_mismatch-cases :
      (req : AppendEntriesRequest T) (s : Shared T)
      → (prev_mismatch req s ≡ (panic, s))
        ⊎ ((prev_mismatch req s ≡ (done true, s)) ⊎ (prev_mismatch req s ≡ (done false, s)))
  unfolding prev_mismatch
  prev_mismatch-cases req s =
      elim (Bool-cases (ltb 0 (length s.log) && leb req.prev_log_index (length s.log))) [
        | inr skipped ↦ inr (inr (rw skipped))
        | inl tested ↦ elim (Option-cases (get_elem? s.log (usize_sub req.prev_log_index 1))) [
          | inl out ↦ inl (rw (tested, out))
          | inr (e, at) ↦ elim (Bool-cases (e.term == req.prev_log_term)) [
            | inl same ↦ inr (inr (rw (tested, at, same)))
            | inr differs ↦ inr (inl (rw (tested, at, differs)))
          ]
        ]
      ]

  abbrev SameVote : State T → State T → Type 0
  SameVote s s' = (s'.node_term ≡ s.node_term) × (s'.voted_for ≡ s.voted_for)

  set_commit-vote :
      (k : LogIndex) (o : Outcome (Unit {0})) (s : Shared T)
      → SameVote s.state (continue o (λ _. modify (on_state (set_commited_index k))) s).1.state
  set_commit-vote k panic s = (refl, refl)
  set_commit-vote k (done u) s = (refl, refl)

  follow_commit-vote : (k : LogIndex) (s : Shared T) → SameVote s.state (follow_commit k s).1.state
  unfolding follow_commit
  follow_commit-vote k s = elim (Bool-cases (ltb s.commited_index k)) [
    | inr level ↦ rw level (refl, refl)
    | inl behind ↦
        let (o, s') = deliver_range (k - s.commited_index) s.commited_index s in
        let same : s'.state ≡ s.state =
          deliver_range-state (k - s.commited_index) s.commited_index s in
        let (term, vote) = set_commit-vote k o s' in
        rw behind (
          term ∙ ap (λ (x : State T). x.node_term) same,
          vote ∙ ap (λ (x : State T). x.voted_for) same,
        )
  ]

  accept-KeepsVote :
      (t : Timer) (req : AppendEntriesRequest T) (s : State T)
      → s.node_term ≤ req.term
      → KeepsVote s (accept t req s)
  unfolding accept
  accept-KeepsVote t req s h = record {
    term = h;
    vote = λ e v voted. rw (le→ltb s.node_term req.term (omega arith)) voted;
  }

  respond-state :
      (node_id : NodeId) (o : Outcome (Unit {0})) (s : Shared T)
      → (continue o (λ _. gets (append_response node_id true)) s).1 ≡ s
  respond-state node_id panic s = refl
  respond-state node_id (done u) s = refl

  end-KeepsVote :
      (node_id : NodeId) (k : LogIndex) (s : State T) (s' : Shared T)
      → KeepsVote s s'.state
      → KeepsVote s ((follow_commit k >> gets (append_response node_id true)) s').1.state
  end-KeepsVote node_id k s s' h =
      let (o, s'') = follow_commit k s' in
      let (term, vote) = follow_commit-vote k s' in
      rw (respond-state node_id o s'') (record {
        term = omega (arith, h.term, term);
        vote = λ e v voted. vote ∙ h.vote (omega (arith, e, term)) v voted;
      })

  -- A request of the current term or a later one, whatever its outcome.
  pub append_entries-KeepsVote :
      (node_id : NodeId) (t : Timer) (req : AppendEntriesRequest T) (s : Shared T)
      → s.node_term ≤ req.term
      → KeepsVote s.state (append_entries node_id t req s).1.state
  unfolding append_entries
  append_entries-KeepsVote node_id t req s h = elim (Bool-cases (is_stale req s.state)) [
    | inl stale ↦ rw stale (KeepsVote-refl s.state)
    | inr fresh ↦ elim (prev_mismatch-cases req s) [
      | inl faults ↦ rw (fresh, faults) (KeepsVote-refl s.state)
      | inr (inl differs) ↦ rw (fresh, differs) (KeepsVote-refl s.state)
      | inr (inr same) ↦ elim (Bool-cases (ltb (length s.log) req.prev_log_index)) [
        | inl past ↦
            rw (fresh, same, past)
              (elim (Bool-cases (ltb 0 (length s.log))) [
                | inl e ↦ rw e (KeepsVote-refl s.state)
                | inr e ↦ rw e (KeepsVote-refl s.state)
              ])
        | inr within ↦
            rw (fresh, same, within, and_false)
              (end-KeepsVote node_id req.leader_commit s.state
                (on_state (λ r. set_log (write_log req (accept t req s.state).log) r)
                  (on_state (accept t req) s))
                (let k = accept-KeepsVote t req s.state h in
                  record { term = k.term; vote = k.vote }))
      ]
    ]
  ]
