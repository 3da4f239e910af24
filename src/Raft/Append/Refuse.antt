-- ===== src/Raft/Append/Refuse.antt =====
-- The branches of `append_entries` that leave early: the refusals, and the index out of bounds.
use native.Mathlib.Decide.{ℕ_discrete}
use quaso.Prelude.{
  ℕ, zero, suc, ◌-◌, ◌<◌, ◌≡◌, ◌≢◌, ◌⊎◌, refl, true, false, some, List, [], ◌∷◌, arith, ltb, ◌==◌,
  length, get_elem?, usize_mod, usize_sub, Bool-cases, ==_iff, inl, inr, Option-cases, get_elem?-lt,
  get_elem?-le, and_false, get_elem?-none, lt→ltb, le→leb, lt→leb,
}
use quaso.Prelude.Exec.{done, panic}
use quaso.Raft.Data.{NodeId, LogEntry, Shared, Timer, AppendEntriesRequest}
use quaso.Raft.Append.{append_response, is_stale, append_entries}
use quaso.Raft.Append.Accept.{PrevFits}

-- The place before the request is past the end of the log, or holds an entry of another term.
abbrev pub PrevDiffers : {T : Type 0} → List (LogEntry T) → AppendEntriesRequest T → Type 0
PrevDiffers {T} log req =
    (length log < req.prev_log_index)
    ⊎ ((k : ℕ) × (e : LogEntry T) × (req.prev_log_index ≡ suc k)
        × (get_elem? log k ≡ some e)
        × (e.term ≢ req.prev_log_term))

-- Index 0 is looked up as `log[0 - 1]`.
abbrev pub PrevFaults : {T : Type 0} → List (LogEntry T) → AppendEntriesRequest T → Type 0
PrevFaults log req = (0 < length log) × (req.prev_log_index ≡ 0)

module _ {T : Type 0} where
  -- One of the three holds.
  pub prev-cases :
      (l : List (LogEntry T)) (req : AppendEntriesRequest T)
      → PrevFits l req ⊎ (PrevFaults l req ⊎ PrevDiffers l req)
  prev-cases l req = go l req.prev_log_index refl
    where
      go :
          (l : List (LogEntry T)) (n : ℕ)
          → req.prev_log_index ≡ n
          → PrevFits l req ⊎ (PrevFaults l req ⊎ PrevDiffers l req)
      go [] zero e = inl e
      go [] (suc n) e = inr (inr (inl (omega arith)))
      go (x ∷ l) zero e = inr (inl (omega arith, e))
      go (x ∷ l) (suc n) e = elim (Option-cases (get_elem? (x ∷ l) n)) [
        | inl out ↦ inr (inr (inl (omega (arith, get_elem?-le (x ∷ l) n out))))
        | inr (y, at) ↦ elim (ℕ_discrete y.term req.prev_log_term) [
          | yes same ↦ inl (n, y, e, at, same)
          | no differs ↦ inr (inr (inr (n, y, e, at, differs)))
        ]
      ]

module _ {T : Type 0} (node_id : NodeId) (t : Timer) (req : AppendEntriesRequest T)
    (s : Shared T) where
  pub append_entries_stale :
      is_stale req s.state ≡ true
      → append_entries node_id t req s ≡ (done (append_response node_id false s), s)
  unfolding append_entries
  append_entries_stale h = rw h

  -- The entry before the request is missing or of another term: refused, and nothing changes.
  pub append_entries_differs :
      length s.log < usize_mod
      → is_stale req s.state ≡ false
      → PrevDiffers s.log req
      → append_entries node_id t req s ≡ (done (append_response node_id false s), s)
  unfolding append_entries
  append_entries_differs small fresh (inl past) =
      rw (fresh, lt→leb req.prev_log_index (length s.log) past, and_false)
        (rw (lt→ltb (length s.log) req.prev_log_index past)
          (elim (Bool-cases (ltb 0 (length s.log))) [ inl e ↦ rw e | inr e ↦ rw e ]))
  append_entries_differs small fresh (inr (k, e, p, q, differs)) =
      let i : usize_sub req.prev_log_index 1 ≡ k = omega (arith, get_elem?-lt s.log k q) in
      rw
        (
          fresh,
          lt→ltb 0 (length s.log) (omega (arith, get_elem?-lt s.log k q)),
          le→leb req.prev_log_index (length s.log) (omega (arith, get_elem?-lt s.log k q)),
          i,
          q,
        )
        (elim (Bool-cases (e.term == req.prev_log_term)) [
          | inl same ↦ absurd (differs ((==_iff e.term req.prev_log_term).0 same))
          | inr other ↦ rw other
        ])

  -- With entries in the log, index 0 panics, whatever else the request holds.
  pub append_entries_faults :
      length s.log < usize_mod
      → is_stale req s.state ≡ false
      → PrevFaults s.log req
      → append_entries node_id t req s ≡ (panic, s)
  unfolding append_entries
  append_entries_faults small fresh (nonempty, first) =
      let i : usize_sub req.prev_log_index 1 ≡ usize_mod - 1 = omega arith in
      rw (
        fresh,
        lt→ltb 0 (length s.log) nonempty,
        le→leb req.prev_log_index (length s.log) (omega arith),
        i,
        get_elem?-none s.log (usize_mod - 1) (omega arith),
      )
