-- ===== src/Raft/Deliver.antt =====
-- The loop that hands committed entries to the application, which `Server::append_entries`
-- (raft/src/server/rpc.rs) and `Raft::maybe_commit_log_entries` (state.rs) both contain.
use quaso.Prelude.{
  ℕ, zero, suc, ◌+◌, ◌≤◌, ◌<◌, ◌≡◌, ◌∙◌, [], ◌∷◌, ◌++◌, arith, length, get_elem?, take, drop,
  get_elem?-some, get_elem?-none, drop-get_elem?, drop_all,
}
use native.Mathlib.Decide.{dec_lt}
use mathlib.Core.List.{append_assoc, append-nil}
use quaso.Prelude.Exec.{Exec, done, panic, lift, modify, expect, ◌>>=◌, ◌>>◌}
use quaso.Raft.Data.{LogIndex, LogEntry, Shared}

module _ {T : Type 0} where
  -- `deliver_tx.send(entry)`
  abbrev pub send : LogEntry T → Shared T → Shared T
  send e s = record s { delivered = s.delivered ++ e ∷ [] }

  -- `for i in first..first + rounds`; an index out of bounds panics.
  unfoldable pub deliver_range : ℕ → LogIndex → Exec (Shared T) (Unit {0})
  deliver_range zero i = lift (done tt)
  deliver_range (suc rounds) i = do
    e ← λ s. (expect (get_elem? s.log i), s)
    modify (send e)
    deliver_range rounds (suc i)

  -- In range, exactly the entries from `i` on are sent, in order, and nothing else changes.
  pub deliver_range_done :
      (rounds i : ℕ) (s : Shared T)
      → i + rounds ≤ length s.log
      → deliver_range rounds i s
        ≡ (done tt, record s { delivered = s.delivered ++ take rounds (drop i s.log) })
  unfolding deliver_range
  deliver_range_done zero i s h = simp append-nil
  deliver_range_done (suc rounds) i s h =
      let (e, he) = get_elem?-some s.log i (omega arith) in
      rw he (
        rw (drop-get_elem? s.log i he) (
          deliver_range_done rounds (suc i) (send e s) (omega arith)
          ∙ rw (append_assoc s.delivered (e ∷ []) (take rounds (drop (suc i) s.log)))))

  -- Otherwise the entries that there are are sent before the panic.
  pub deliver_range_panic :
      (rounds i : ℕ) (s : Shared T)
      → 0 < rounds
      → length s.log < i + rounds
      → deliver_range rounds i s ≡ (panic, record s { delivered = s.delivered ++ drop i s.log })
  unfolding deliver_range
  deliver_range_panic zero i s p h = absurd (omega arith)
  deliver_range_panic (suc rounds) i s p h = elim (dec_lt i (length s.log)) [
    | yes in_range ↦
        let (e, he) = get_elem?-some s.log i in_range in
        rw he (
          rw (drop-get_elem? s.log i he) (
            deliver_range_panic rounds (suc i) (send e s) (omega arith) (omega arith)
            ∙ rw (append_assoc s.delivered (e ∷ []) (drop (suc i) s.log))))
    | no out ↦
        rw (get_elem?-none s.log i (omega arith), drop_all i s.log (omega arith)) (simp append-nil)
  ]
