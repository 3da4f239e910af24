-- ===== src/Raft/Persist/Truncated.antt =====
-- What the ticker (state.rs) makes of a log that `append_entries` (rpc.rs) has cut.
use native.Mathlib.Decide.{dec_lt}
use quaso.Prelude.{suc, ◌+◌, ◌≤◌, ◌<◌, ◌≡◌, ap, true, arith, length, usize_mod, lt→ltb, le→ltb}
use quaso.Prelude.Exec.{done, panic}
use quaso.Raft.Data.{LogIndex, Instant, Timer, PersistentState, AppendEntriesRequest}
use quaso.Raft.Node.{Raft}
use quaso.Raft.Append.{append_entries}
use quaso.Raft.Append.Commit.{HasAppended}
use quaso.Raft.Append.Outcome.{Takes, success_iff_Takes, Takes-HasAppended}
use quaso.Raft.Append.Log.{append_inside}
use quaso.Raft.Persist.{File, Disk, persist, try_persist_state}
use quaso.Raft.Persist.Restart.{log_to_persist-past}

module _ {T : Type 0} (disk : Disk T) where
  persist-past :
      (k : LogIndex) (p : PersistentState T) (file : File)
      → length p.log < k
      → persist disk k p file ≡ (panic, file)
  unfolding persist
  persist-past k p file h = rw (log_to_persist-past disk k p.log h)

  try_persist-past :
      (now later : Instant) (r : Raft T) (file : File)
      → r.persist_timeout < now
      → length r.log < r.commited_index
      → (try_persist_state disk now later (r, file)).0 ≡ panic
  unfolding try_persist_state
  try_persist-past now later r file due past =
      rw (
        lt→ltb r.persist_timeout now due,
        persist-past r.commited_index r.persistent_state file past,
      )

  -- A request that a node takes ends inside its log, which is shorter than 2^64, and not past
  -- its commit index. It is answered with success, leaves a log one entry shorter than where it
  -- ends, and the next time that the node is due to persist, its ticker panics.
  pub truncated_panics :
      (r : Raft T) (t : Timer) (req : AppendEntriesRequest T) (now later : Instant) (file : File)
      → length r.log < usize_mod
      → Takes req r.state
      → length req.entries + req.prev_log_index < length r.log
      → length req.entries + req.prev_log_index ≤ r.commited_index
      → (append_entries r.node_id t req r.shared).1.persist_timeout < now
      → let answered = append_entries r.node_id t req r.shared in
        (answered.0 ≡ done (record { node_id = r.node_id; term = req.term; success = true }))
        × (suc (length answered.1.log) ≡ length req.entries + req.prev_log_index)
        × ((try_persist_state disk now later (record r { shared = answered.1 }, file)).0 ≡ panic)
  truncated_panics r t req now later file small takes inside commited due =
      let answered = append_entries r.node_id t req r.shared in
      let has : HasAppended req r.shared answered.1 =
        Takes-HasAppended r.node_id t req r.shared small takes in
      let short = append_inside r.node_id t req r.shared small takes inside in
      let past : length answered.1.log < answered.1.commited_index =
        elim (dec_lt r.commited_index req.leader_commit) [
          | yes more ↦ absurd (omega (arith, takes.commit more, ap length has.log, short))
          | no same ↦
              rw (has.commit, le→ltb r.commited_index req.leader_commit (omega arith)) (omega arith)
        ] in
      (
        (success_iff_Takes r.node_id t req r.shared small).1 takes,
        short,
        try_persist-past now later (record r { shared = answered.1 }) file due past,
      )
