-- ===== src/Raft/Append/Accept.antt =====
-- Which requests `append_entries` takes, and what each branch of it does.
use quaso.Prelude.{
  ℕ, suc, ◌≤◌, ◌<◌, ◌≡◌, ◌⊎◌, refl, true, false, some, List, [], ◌∷◌, arith, ltb, length, get_elem?,
  usize_mod, usize_sub, Bool-cases, ==_iff, inl, inr, get_elem?-lt, and_false, le→ltb, lt→ltb,
  le→leb,
}
use quaso.Prelude.Exec.{done, gets, ◌>>◌}
use quaso.Raft.Data.{NodeId, LogEntry, State, Shared, Timer, AppendEntriesRequest, set_log}
use quaso.Raft.Append.{
  append_response, on_state, is_stale, prev_mismatch, accept, write_log, follow_commit,
  append_entries,
}

-- The request's place in the log: nothing is before it in an empty log, and otherwise the entry
-- just before it is there, with the term that the leader has for it.
abbrev pub PrevFits : {T : Type 0} → List (LogEntry T) → AppendEntriesRequest T → Type 0
PrevFits [] req = req.prev_log_index ≡ 0
PrevFits {T} (x ∷ log) req =
    (k : ℕ) × (e : LogEntry T) × (req.prev_log_index ≡ suc k)
    × (get_elem? (x ∷ log) k ≡ some e)
    × (e.term ≡ req.prev_log_term)

module _ {T : Type 0} where
  -- The state in which the commit index is looked at.
  abbrev pub accepted : Timer → AppendEntriesRequest T → Shared T → Shared T
  accepted t req s = on_state (λ r. set_log (write_log req r.log) (accept t req r)) s

  log-accept :
      (t : Timer) (req : AppendEntriesRequest T) (s : State T) → (accept t req s).log ≡ s.log
  unfolding accept
  log-accept t req s = ground arith

  PrevFits-cases :
      (l : List (LogEntry T)) (req : AppendEntriesRequest T)
      → PrevFits l req
      → ((length l ≡ 0) × (req.prev_log_index ≡ 0))
        ⊎ ((k : ℕ) × (e : LogEntry T) × (req.prev_log_index ≡ suc k)
            × (get_elem? l k ≡ some e)
            × (e.term ≡ req.prev_log_term)
            × (k < length l))
  PrevFits-cases [] req h = inl (refl, h)
  PrevFits-cases (x ∷ l) req (k, e, p, q, r) = inr (k, e, p, q, r, get_elem?-lt (x ∷ l) k q)

  pub PrevFits-le :
      (l : List (LogEntry T)) (req : AppendEntriesRequest T)
      → PrevFits l req
      → req.prev_log_index ≤ length l
  PrevFits-le l req h = elim (PrevFits-cases l req h) [
    | inl (a, b) ↦ omega arith
    | inr (k, e, p, q, r, lt) ↦ omega arith
  ]

  prev_mismatch-PrevFits :
      (req : AppendEntriesRequest T) (s : Shared T)
      → length s.log < usize_mod
      → PrevFits s.log req
      → prev_mismatch req s ≡ (done false, s)
  unfolding prev_mismatch
  prev_mismatch-PrevFits req s small h = elim (PrevFits-cases s.log req h) [
    | inl (a, b) ↦ ground arith
    | inr (k, e, p, q, r, lt) ↦
        let i : usize_sub req.prev_log_index 1 ≡ k = omega arith in
        rw
          (
            lt→ltb 0 (length s.log) (omega arith),
            le→leb req.prev_log_index (length s.log) (omega arith),
            i,
            q,
          )
          (rw ((==_iff e.term req.prev_log_term).1 r))
  ]

  -- A request that is not stale and fits goes through to the commit index.
  pub append_entries-accepted :
      (node_id : NodeId) (t : Timer) (req : AppendEntriesRequest T) (s : Shared T)
      → length s.log < usize_mod
      → is_stale req s.state ≡ false
      → PrevFits s.log req
      → append_entries node_id t req s
        ≡ (follow_commit req.leader_commit >> gets (append_response node_id true))
            (accepted t req s)
  unfolding append_entries
  append_entries-accepted node_id t req s small fresh fits =
      rw
        (
          fresh,
          prev_mismatch-PrevFits req s small fits,
          le→ltb (length s.log) req.prev_log_index (PrevFits-le s.log req fits),
          and_false,
        )
        (elim (Bool-cases (ltb s.node_term req.term)) [ inl e ↦ rw e | inr e ↦ rw e ])
