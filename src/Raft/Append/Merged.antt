-- ===== src/Raft/Append/Merged.antt =====
-- What a node holds after a request for entries, with the log written out.
use native.Mathlib.Decide.{dec_lt, dec_le}
use quaso.Prelude.{
  ℕ, suc, ◌+◌, ◌-◌, ◌≤◌, ◌<◌, ◌≡◌, ◌⊎◌, ◌∙◌, ap, inl, inr, refl, sym, true, some, List, ◌++◌, arith,
  length, length-append, take, drop, ltb, if◌then◌else◌, usize_mod, le→ltb, lt→ltb,
}
use quaso.Prelude.Exec.{Outcome, done}
use quaso.Raft.Data.{
  NodeId, follower, LogEntry, Shared, Timer, AppendEntriesRequest, AppendEntriesResponse,
}
use quaso.Raft.Append.{write_log, append_entries}
use quaso.Raft.Append.Accept.{accepted, append_entries-accepted}
use quaso.Raft.Append.Refuse.{append_entries_faults}
use quaso.Raft.Append.Commit.{HasAppended, commited-accept, follow_commit_panic}
use quaso.Raft.Append.Outcome.{
  Takes, Faults, kinds, append_entries-Refuses, success_iff_Takes, Takes-HasAppended,
}
use quaso.Raft.Append.Log.{write_log_extends, write_log_truncates, prev_pos, taken_commit_bound}

-- A request that reaches the end of the log has its entries put behind the log; one that ends inside
-- the log, behind the entry at the place `k`, has the log cut before that entry first.
abbrev pub Merges :
    {T : Type 0} → AppendEntriesRequest T → List (LogEntry T) → List (LogEntry T) → Type 0
Merges req log log' =
    ((length log ≤ length req.entries + req.prev_log_index) × (log' ≡ log ++ req.entries))
    ⊎ ((length req.entries + req.prev_log_index < length log)
        × ((k : ℕ) × (req.prev_log_index ≡ suc k) × (log' ≡ take k log ++ req.entries)))

pub record HasMerged {T : Type 0} (req : AppendEntriesRequest T) (s s' : Shared T) : Type 0 where
  pub term : s'.node_term ≡ req.term
  pub role : s'.node_type ≡ follower
  pub heard : s'.recieved_leader_heartbeat ≡ true
  pub vote :
      ((s.node_term < req.term) × (s'.voted_for ≡ some req.leader_id))
      ⊎ ((req.term ≤ s.node_term) × (s'.voted_for ≡ s.voted_for))
  pub log : Merges req s.log s'.log
  pub commit :
      ((s.commited_index < req.leader_commit)
        × (s'.commited_index ≡ req.leader_commit)
        × (s'.commited_index ≤ length s'.log))
      ⊎ ((req.leader_commit ≤ s.commited_index) × (s'.commited_index ≡ s.commited_index))
  pub delivered :
      s'.delivered
      ≡ s.delivered ++ take (s'.commited_index - s.commited_index) (drop s.commited_index s'.log)

module _ {T : Type 0} (node_id : NodeId) (t : Timer) (req : AppendEntriesRequest T) (s : Shared T)
    (small : length s.log < usize_mod)
    (word : length req.entries + req.prev_log_index < usize_mod) where
  write_log-Merges : Takes req s.state → Merges req s.log (write_log req s.log)
  write_log-Merges takes = elim (dec_le (length s.log) (length req.entries + req.prev_log_index)) [
    | yes reaches ↦ inl (reaches, write_log_extends req s.log word reaches)
    | no inside ↦
        let (k, e) = prev_pos s.log req takes.place (omega arith) in
        inr (omega arith, (k, e, write_log_truncates req s.log k small e (omega arith)))
  ]

  lesser_cases :
      {A : Type 0} (a b : ℕ) (u v w : A)
      → u ≡ (if ltb a b then v else w)
      → ((a < b) × (u ≡ v)) ⊎ ((b ≤ a) × (u ≡ w))
  lesser_cases a b u v w e = elim (dec_lt a b) [
    | yes h ↦ inl (h, e ∙ rw (lt→ltb a b h))
    | no h ↦ inr (omega arith, e ∙ rw (le→ltb a b (omega arith)))
  ]

  commit_steps : (a b c : ℕ) → c ≡ (if ltb a b then b else a) → b - a ≡ c - a
  commit_steps a b c h = ground arith

  -- On a log shorter than 2^64, a request whose last index is below 2^64 and that is taken is
  -- answered with success and its own term, and leaves a follower in that term that has heard
  -- from a leader, with its vote on that leader if the term is new and as it was otherwise. If
  -- the request reaches the end of the log, its entries are put behind the whole log; if it
  -- ends inside the log, its previous index is not 0 and its entries come behind as many
  -- entries as the index before that. The commit index is the leader's, inside the log, if that
  -- is past the node's, and stays otherwise, and exactly the entries in between are delivered.
  pub Takes-HasMerged :
      Takes req s.state
      → ((append_entries node_id t req s).0
          ≡ done (record { node_id = node_id; term = req.term; success = true }))
        × HasMerged req s (append_entries node_id t req s).1
  Takes-HasMerged takes =
      let s' = (append_entries node_id t req s).1 in
      let has : HasAppended req s s' = Takes-HasAppended node_id t req s small takes in
      (
        (success_iff_Takes node_id t req s small).1 takes,
        record {
          term = has.term;
          role = has.role;
          heard = has.heard;
          vote = lesser_cases s.node_term req.term s'.voted_for _ _ has.vote;
          log = rw has.log (write_log-Merges takes);
          commit =
              elim (lesser_cases s.commited_index req.leader_commit s'.commited_index _ _
                has.commit) [
                  | inl (behind, e) ↦ inl (behind, e, rw (has.log, e) (takes.commit behind))
                  | inr h ↦ inr h
                ];
          delivered =
              rw
                (
                  has.log,
                  sym (
                      commit_steps s.commited_index req.leader_commit s'.commited_index has.commit),
                )
                has.delivered;
        },
      )

  faulted :
      Faults req s.state
      → let s' = (append_entries node_id t req s).1 in
        (s'.commited_index ≡ s.commited_index) × ((s'.log ≡ s.log) ⊎ (s'.log ≡ write_log req s.log))
  faulted h = elim h.why [
    | inl first ↦ rw (append_entries_faults node_id t req s small h.fresh first) (refl, inl refl)
    | inr (fits, behind, short) ↦
        let here = commited-accept t req s.state in
        rw
          (
            append_entries-accepted node_id t req s small h.fresh fits,
            follow_commit_panic req.leader_commit (accepted t req s) (rw here behind) short,
          )
          (here, inr refl)
  ]

  -- Whatever request for entries reaches the end of a log shorter than 2^64, its last index
  -- below 2^64, and whether it is taken, refused or panics the handler, a commit index that was
  -- inside the log is inside the log afterwards.
  pub append_commit_bound :
      length s.log ≤ length req.entries + req.prev_log_index
      → s.commited_index ≤ length s.log
      → (append_entries node_id t req s).1.commited_index
        ≤ length (append_entries node_id t req s).1.log
  append_commit_bound reaches bound = elim (kinds node_id t req s small) [
    | inl takes ↦ taken_commit_bound node_id t req s small takes word reaches bound
    | inr (inl refuses) ↦
        rw
          (ap (λ (x : Outcome AppendEntriesResponse × Shared T). x.1)
            (append_entries-Refuses node_id t req s small refuses))
          bound
    | inr (inr faults) ↦
        let (commit, log) = faulted faults in
        rw commit (elim log [
          | inl same ↦ rw same bound
          | inr written ↦ rw written (
              omega (
                arith,
                ap length (write_log_extends req s.log word reaches),
                length-append s.log req.entries,
              ))
        ])
  ]
