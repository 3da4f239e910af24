-- ===== src/Raft/Append/Outcome.antt =====
-- The three outcomes of `append_entries`: when it succeeds, refuses and panics, and what it leaves.
use native.Mathlib.Decide.{dec_lt, dec_le}
use quaso.Prelude.{
  ap, ◌<◌, ◌≡◌, ◌⊎◌, ◌↔◌, true, false, arith, length, usize_mod, Bool-cases, inl, inr,
}
use quaso.Prelude.Exec.{Outcome, done, panic}
use quaso.Raft.Data.{NodeId, State, Shared, Timer, AppendEntriesRequest, AppendEntriesResponse}
use quaso.Raft.Append.{append_response, is_stale, write_log, append_entries}
use quaso.Raft.Append.Accept.{PrevFits, accepted, append_entries-accepted}
use quaso.Raft.Append.Refuse.{
  PrevDiffers, PrevFaults, prev-cases, append_entries_stale, append_entries_differs,
  append_entries_faults,
}
use quaso.Raft.Append.Commit.{
  CommitFits, HasAppended, HasAppended-followed, commited-accept, followed, follow_commit_done,
  follow_commit_panic,
}

-- A request that the handler takes, in a state `s`.
pub record Takes {T : Type 0} (req : AppendEntriesRequest T) (s : State T) : Type 0 where
  pub fresh : is_stale req s ≡ false
  pub place : PrevFits s.log req
  pub commit : CommitFits req s

-- A request that panics the handler's task.
pub record Faults {T : Type 0} (req : AppendEntriesRequest T) (s : State T) : Type 0 where
  pub fresh : is_stale req s ≡ false
  pub why :
      PrevFaults s.log req
      ⊎ (PrevFits s.log req
          × (s.commited_index < req.leader_commit)
          × (length (write_log req s.log) < req.leader_commit))

-- A request that the handler answers with `success: false`.
abbrev pub Refuses : {T : Type 0} → AppendEntriesRequest T → State T → Type 0
Refuses req s = (is_stale req s ≡ true) ⊎ (is_stale req s ≡ false) × PrevDiffers s.log req

module _ {T : Type 0} (node_id : NodeId) (t : Timer) (req : AppendEntriesRequest T)
    (s : Shared T) where
  abbrev pub taken : Outcome AppendEntriesResponse × Shared T
  taken = (
    done (record { node_id = node_id; term = req.term; success = true }),
    followed req.leader_commit (accepted t req s),
  )

module _ {T : Type 0} (node_id : NodeId) (t : Timer) (req : AppendEntriesRequest T) (s : Shared T)
    (small : length s.log < usize_mod) where
  append_entries-Takes : Takes req s.state → append_entries node_id t req s ≡ taken node_id t req s
  append_entries-Takes h =
      let here = commited-accept t req s.state in
      rw (
        append_entries-accepted node_id t req s small h.fresh h.place,
        follow_commit_done req.leader_commit (accepted t req s)
            (λ behind. h.commit (rw here at behind)),
        (HasAppended-followed t req s).term,
      )

  pub append_entries-Refuses :
      Refuses req s.state
      → append_entries node_id t req s ≡ (done (append_response node_id false s), s)
  append_entries-Refuses (inl stale) = append_entries_stale node_id t req s stale
  append_entries-Refuses (inr (fresh, differs)) =
      append_entries_differs node_id t req s small fresh differs

  append_entries_fault : Faults req s.state → (append_entries node_id t req s).0 ≡ panic
  append_entries_fault h = elim h.why [
    | inl first ↦ rw (append_entries_faults node_id t req s small h.fresh first)
    | inr (fits, behind, short) ↦ rw (
      append_entries-accepted node_id t req s small h.fresh fits,
      follow_commit_panic req.leader_commit (accepted t req s)
          (rw (commited-accept t req s.state) behind) short,
    )
  ]

  in_commit :
      is_stale req s.state ≡ false
      → PrevFits s.log req
      → Takes req s.state ⊎ (Refuses req s.state ⊎ Faults req s.state)
  in_commit fresh fits = elim (dec_lt s.commited_index req.leader_commit) [
    | yes behind ↦ elim (dec_le req.leader_commit (length (write_log req s.log))) [
      | yes there ↦ inl (record { fresh = fresh; place = fits; commit = λ _. there })
      | no short ↦ inr (inr (record { fresh = fresh; why = inr (fits, behind, omega arith) }))
    ]
    | no level ↦ inl (record { fresh = fresh; place = fits; commit = λ b. absurd (level b) })
  ]

  -- The three kinds of request cover all.
  pub kinds : Takes req s.state ⊎ (Refuses req s.state ⊎ Faults req s.state)
  kinds = elim (Bool-cases (is_stale req s.state)) [
    | inl stale ↦ inr (inl (inl stale))
    | inr fresh ↦ elim (prev-cases s.log req) [
      | inl fits ↦ in_commit fresh fits
      | inr (inl faults) ↦ inr (inr (record { fresh = fresh; why = inl faults }))
      | inr (inr differs) ↦ inr (inl (inr (fresh, differs)))
    ]
  ]

  -- Unless it panics, the handler takes a request or leaves the state alone.
  pub append_entries_returns :
      {resp : AppendEntriesResponse}
      → (append_entries node_id t req s).0 ≡ done resp
      → Takes req s.state ⊎ ((append_entries node_id t req s).1 ≡ s)
  append_entries_returns e = elim kinds [
    | inl takes ↦ inl takes
    | inr (inl refuses) ↦ inr (
        ap (λ (x : Outcome AppendEntriesResponse × Shared T). x.1) (append_entries-Refuses refuses))
    | inr (inr faults) ↦ cc (append_entries_fault faults)
  ]

  -- On a log shorter than 2^64, the handler answers with success and the request's term exactly
  -- if the request is not stale, its previous entry fits the log, and its commit index, where
  -- it is past the node's, lies in the log that it leaves.
  pub success_iff_Takes :
      (append_entries node_id t req s).0
        ≡ done (record { node_id = node_id; term = req.term; success = true })
      ↔ Takes req s.state
  success_iff_Takes = (
    λ e. elim kinds [
      | inl takes ↦ takes
      | inr (inl refuses) ↦ cc (append_entries-Refuses refuses)
      | inr (inr faults) ↦ cc (append_entries_fault faults)
    ],
    λ h. rw (append_entries-Takes h),
  )

  -- On a log shorter than 2^64, the handler panics exactly on a request that is not stale and
  -- either has previous index 0 on a log with entries, or fits and has a commit index past the
  -- node's and past the log that it leaves.
  pub panic_iff_Faults : ((append_entries node_id t req s).0 ≡ panic) ↔ Faults req s.state
  panic_iff_Faults = (
    λ e. elim kinds [
      | inl takes ↦ cc (append_entries-Takes takes)
      | inr (inl refuses) ↦ cc (append_entries-Refuses refuses)
      | inr (inr faults) ↦ faults
    ],
    append_entries_fault,
  )

  -- On a log shorter than 2^64, a request that is answered without success leaves the state as
  -- it is, and the answer has the node's own term.
  pub reject_unchanged :
      {r : AppendEntriesResponse}
      → (append_entries node_id t req s).0 ≡ done r
      → r.success ≡ false
      → append_entries node_id t req s ≡ (done (append_response node_id false s), s)
  reject_unchanged e f = elim kinds [
    | inl takes ↦ ground (arith, append_entries-Takes takes)
    | inr (inl refuses) ↦ append_entries-Refuses refuses
    | inr (inr faults) ↦ cc (append_entries_fault faults)
  ]

  pub Takes-HasAppended : Takes req s.state → HasAppended req s (append_entries node_id t req s).1
  Takes-HasAppended h = rw (append_entries-Takes h) (HasAppended-followed t req s)
