-- ===== src/Raft/Append/Conflict.antt =====
-- What becomes of entries that differ from the leader's: a request that reaches the end of the log
-- leaves every one of them where it is.
use quaso.Prelude.{
  ℕ, suc, zero, ◌+◌, ◌≤◌, ◌<◌, ◌≡◌, ◌≢◌, true, sym, refl, ◌∙◌, ap, List, [], ◌∷◌, ◌++◌, arith,
  length, get_elem?, usize_mod,
}
use quaso.Prelude.Exec.{done}
use quaso.Raft.Data.{NodeId, Shared, Timer, AppendEntriesRequest}
use quaso.Raft.Append.{append_entries}
use quaso.Raft.Append.Outcome.{Takes, success_iff_Takes}
use quaso.Raft.Append.Log.{append_at_end}

get_elem?-append {ℓ} :
    {A : Type ℓ} (i : ℕ) (xs ys : List A) → i < length xs → get_elem? (xs ++ ys) i ≡ get_elem? xs i
get_elem?-append i [] ys h = absurd (omega arith)
get_elem?-append zero (x ∷ xs) ys h = refl
get_elem?-append (suc i) (x ∷ xs) ys h = get_elem?-append i xs ys (omega arith)

module _ {T : Type 0} (node_id : NodeId) (t : Timer) (req : AppendEntriesRequest T)
    (s : Shared T) where
  -- A request that is taken and reaches the end of the log, its last index below 2^64, and
  -- whose entry at an index inside the log differs from the one there, is answered with
  -- success, and the log still has something else than the request's entry at that index.
  pub conflict_stays :
      (j : ℕ)
      → Takes req s.state
      → length req.entries + req.prev_log_index < usize_mod
      → length s.log ≤ length req.entries + req.prev_log_index
      → req.prev_log_index + j < length s.log
      → get_elem? s.log (req.prev_log_index + j) ≢ get_elem? req.entries j
      → ((append_entries node_id t req s).0
          ≡ done (record { node_id = node_id; term = req.term; success = true }))
        × (get_elem? (append_entries node_id t req s).1.log (req.prev_log_index + j)
            ≢ get_elem? req.entries j)
  conflict_stays j takes word reaches inside differs =
      let old : get_elem? (append_entries node_id t req s).1.log (req.prev_log_index + j)
          ≡ get_elem? s.log (req.prev_log_index + j) =
        ap (λ l. get_elem? l (req.prev_log_index + j))
          (append_at_end node_id t req s (omega arith) takes word reaches)
        ∙ get_elem?-append (req.prev_log_index + j) s.log req.entries inside in
      ((success_iff_Takes node_id t req s (omega arith)).1 takes, λ e. differs (sym old ∙ e))
