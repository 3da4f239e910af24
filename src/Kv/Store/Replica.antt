-- ===== src/Kv/Store/Replica.antt =====
-- The store's map beside the log of its own node: a leader commits, and the store's task takes what is
-- delivered among the commands of clients.
mod Tests
use mathlib.Core.Path.{subst}
use quaso.Prelude.{
  append-left_cancel, take-append, take-take-drop, ℕ, zero, suc, ◌+◌, ◌-◌, ◌≤◌, ◌<◌, ◌≡◌, ◌≢◌, refl,
  sym, ap, ◌∙◌, List, [], ◌∷◌, ◌++◌, arith, length, take, drop, if◌then◌else◌, length-append,
  Bool-cases, inl, inr,
}
use quaso.Prelude.Exec.{done}
use quaso.Raft.Data.{LogIndex, LogEntry, set_log, leader, role_eq}
use quaso.Raft.Node.{Raft, on_node_state, append_entry}
use quaso.Raft.Commit.{maybe_commit_log_entries}
use quaso.Raft.Commit.Quorum.{IsOrder}
use quaso.Raft.Commit.Advance.{IsCommit, commited_at, move-IsCommit}
use quaso.Kv.Command.{Operation, set, get, delete, invalid}
use quaso.Kv.Store.{
  Storage, KvStore, Message, from_client, from_raft, init_default, apply, deliver_all, handle_cmd,
  generic_handler_interface,
}

-- The entries among the messages of the store's task.
abbrev pub entries_of : List Message → List (LogEntry Operation)
entries_of [] = []
entries_of (from_client op ∷ ms) = entries_of ms
entries_of (from_raft m ∷ ms) = m ∷ entries_of ms

-- The map, with `pending` still to be applied, is what the log up to the commit index makes of an
-- empty one.
pub record IsReplicaBut (pending : List (LogEntry Operation)) (s : KvStore) : Type 0 where
  pub within : s.raft.commited_index ≤ length s.raft.log
  pub same :
      deliver_all pending s.storage
      ≡ deliver_all (take s.raft.commited_index s.raft.log) init_default

-- The map is what the committed entries make of an empty one.
abbrev pub IsReplica : KvStore → Type 0
IsReplica = IsReplicaBut []

pub deliver_all-append :
    (xs ys : List (LogEntry Operation)) (m : Storage)
    → deliver_all (xs ++ ys) m ≡ deliver_all ys (deliver_all xs m)
unfolding deliver_all
deliver_all-append [] ys m = refl
deliver_all-append (x ∷ xs) ys m = deliver_all-append xs ys (apply x m)

pub IsReplica-append :
    (s : KvStore) {pending : List (LogEntry Operation)} (more : List (LogEntry Operation))
    → IsReplicaBut pending s
    → IsReplicaBut pending (record s { raft = on_node_state (set_log (s.raft.log ++ more)) s.raft })
IsReplica-append s more h = record {
  within = omega (arith, h.within, length-append s.raft.log more);
  same =
      h.same
      ∙ ap (λ l. deliver_all l init_default)
          (sym (take-append s.raft.commited_index s.raft.log more h.within));
}

append_entry-IsReplicaBut :
    (op : Operation) (pending : List (LogEntry Operation)) (s : KvStore)
    → IsReplicaBut pending s
    → IsReplicaBut pending (record s { raft = append_entry op s.raft })
unfolding append_entry
append_entry-IsReplicaBut op pending s h = elim (Bool-cases (role_eq s.raft.node_type leader)) [
  | inr other ↦ rw other h
  | inl leads ↦
      rw leads (IsReplica-append s (record { value = op; term = s.raft.node_term } ∷ []) h)
]

handle_cmd-IsReplicaBut :
    (op : Operation) (pending : List (LogEntry Operation)) (s : KvStore)
    → IsReplicaBut pending s
    → IsReplicaBut pending (record s { raft = handle_cmd op s.raft })
unfolding handle_cmd
handle_cmd-IsReplicaBut (get k) pending s h = h
handle_cmd-IsReplicaBut invalid pending s h = h
handle_cmd-IsReplicaBut (set k v) pending s h = append_entry-IsReplicaBut (set k v) pending s h
handle_cmd-IsReplicaBut (delete k) pending s h = append_entry-IsReplicaBut (delete k) pending s h

generic_handler_interface-IsReplica :
    (ms : List Message) (s : KvStore)
    → IsReplicaBut (entries_of ms) s
    → IsReplica (generic_handler_interface ms s)
unfolding generic_handler_interface deliver_all
generic_handler_interface-IsReplica [] s h = h
generic_handler_interface-IsReplica (from_client op ∷ ms) s h =
    generic_handler_interface-IsReplica ms (record s { raft = handle_cmd op s.raft })
      (handle_cmd-IsReplicaBut op (entries_of ms) s h)
generic_handler_interface-IsReplica (from_raft m ∷ ms) s h =
    generic_handler_interface-IsReplica ms (record s { storage = apply m s.storage })
      (taken m (entries_of ms) s h)
  where
    taken :
        (m : LogEntry Operation) (pending : List (LogEntry Operation)) (s : KvStore)
        → IsReplicaBut (m ∷ pending) s
        → IsReplicaBut pending (record s { storage = apply m s.storage })
    taken m pending s h = record { within = h.within; same = h.same }

commited_at-IsReplicaBut :
    (k : LogIndex) (s : KvStore)
    → IsReplica s
    → s.raft.commited_index < k
    → k ≤ length s.raft.log
    → IsReplicaBut
        (take (k - s.raft.commited_index) (drop s.raft.commited_index s.raft.log))
        (record s { raft = commited_at k s.raft })
unfolding deliver_all
commited_at-IsReplicaBut k s h behind within =
    let c = s.raft.commited_index in
    let fresh = take (k - c) (drop c s.raft.log) in
    record {
      within = within;
      same =
          ap (deliver_all fresh) h.same
          ∙ sym (deliver_all-append (take c s.raft.log) fresh init_default)
          ∙ ap (λ l. deliver_all l init_default) (take-take-drop c k s.raft.log (omega arith));
    }

module _ (order : List (LogIndex × ℕ) → List (LogIndex × ℕ)) (is_order : IsOrder order) where
  -- The store's map is what its node's log up to the commit index, which is inside the log,
  -- makes of an empty map. If the commit step moves the commit index, in whatever order its map
  -- of frequencies is iterated, and the store's task then takes the entries that this delivers,
  -- in their order but with any commands of clients in between, the map is again what the log
  -- up to the new commit index makes of an empty one.
  pub commit-IsReplica :
      (s : KvStore) (ms : List Message)
      → IsReplica s
      → (maybe_commit_log_entries order s.raft).1.commited_index ≢ s.raft.commited_index
      → (maybe_commit_log_entries order s.raft).1.delivered ≡ s.raft.delivered ++ entries_of ms
      → IsReplica (
          generic_handler_interface ms
            (record s { raft = (maybe_commit_log_entries order s.raft).1 }))
  commit-IsReplica s ms h moves delivers =
      let (k, commit) = move-IsCommit order is_order s.raft moves in
      let c = s.raft.commited_index in
      let fresh = take (k - c) (drop c s.raft.log) in
      let result : (maybe_commit_log_entries order s.raft).1 ≡ commited_at k s.raft =
        ap (λ x. x.1) commit.result in
      let same : fresh ≡ entries_of ms =
        append-left_cancel s.raft.delivered fresh (entries_of ms)
          (ap (λ (r : Raft Operation). r.delivered) (sym result) ∙ delivers) in
      generic_handler_interface-IsReplica ms _ (
        subst (λ r. IsReplicaBut (entries_of ms) (record s { raft = r })) (sym result)
          (subst (λ p. IsReplicaBut p (record s { raft = commited_at k s.raft })) same
            (commited_at-IsReplicaBut k s h commit.forwards commit.within)))
