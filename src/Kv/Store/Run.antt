-- ===== src/Kv/Store/Run.antt =====
-- A store from its start on: the steps of its node, and its task's commands and entries.
mod Tests
use quaso.Prelude.{
  ℕ, suc, ◌+◌, ◌≤◌, ◌≡◌, refl, sym, ap, ◌∙◌, String, Option, none, some, List, [], ◌∷◌, ◌++◌, arith,
  length, take, drop, get_elem?, take-take, take-take-drop, take-append, length-append,
  length-take_of_le, get_elem?-lt, drop-get_elem?, ◌-◌,
}
use quaso.Raft.Data.{NodeId, Timer, LogEntry, PersistentState}
use quaso.Raft.Node.{Raft, new_from_config, append_entry}
use quaso.Raft.Committed.{
  Step, IsCommitted, Advances, Advances-refl, Step-Advances, append_entry-Advances,
  new_from_config-IsCommitted,
}
use quaso.Kv.Command.{Operation, set, get, delete, invalid}
use quaso.Kv.Store.{
  Storage, KvStore, Message, from_client, from_raft, init_default, apply, deliver_all, handle_cmd,
  handle_message,
}
use quaso.Kv.Store.Replica.{deliver_all-append}

-- A store that may come to be, and how many of the entries delivered to it its task has taken.
pub data Run : KvStore → ℕ → Type 0 where
  starts :
      (t : Timer) (node_id : NodeId) (conns : List String) (addr : String)
      (p : PersistentState Operation)
      → Run (record { storage = init_default; raft = new_from_config t node_id conns addr p }) 0
  works :
      (s : KvStore) (n : ℕ) (r : Raft Operation)
      → Run s n
      → Step s.raft r
      → Run (record s { raft = r }) n
  takes_command :
      (s : KvStore) (n : ℕ) (op : Operation) → Run s n → Run (handle_message (from_client op) s) n
  takes_entry :
      (s : KvStore) (n : ℕ) (m : LogEntry Operation)
      → Run s n
      → get_elem? s.raft.delivered n ≡ some m
      → Run (handle_message (from_raft m) s) (suc n)

-- The map is what the first `n` entries that were delivered make of an empty one.
record HasTaken (s : KvStore) (n : ℕ) : Type 0 where
  commited : IsCommitted s.raft.shared
  within : n ≤ length s.raft.delivered
  same : s.storage ≡ deliver_all (take n s.raft.delivered) init_default

take_one_more :
    (n : ℕ) (m : LogEntry Operation) (l : List (LogEntry Operation)) (s : Storage)
    → get_elem? l n ≡ some m
    → deliver_all (take (suc n) l) s ≡ apply m (deliver_all (take n l) s)
unfolding deliver_all
take_one_more n m l s h =
    let first : suc n - n ≡ 1 = omega arith in
    let one : take (suc n - n) (drop n l) ≡ m ∷ [] =
      ap (λ k. take k (drop n l)) first ∙ ap (take 1) (drop-get_elem? l n h) in
    ap (λ x. deliver_all x s) (sym (take-take-drop n (suc n) l (omega arith)))
    ∙ deliver_all-append (take n l) (take (suc n - n) (drop n l)) s
    ∙ ap (λ x. deliver_all x (deliver_all (take n l) s)) one

-- More that is delivered leaves what has been taken.
HasTaken-Advances :
    (s : KvStore) (n : ℕ) (r : Raft Operation)
    → HasTaken s n
    → Advances s.raft.shared r.shared
    → HasTaken (record s { raft = r }) n
HasTaken-Advances s n r h a = record {
  commited = a.commited;
  within = omega (arith, h.within, ap length a.delivered, length-append s.raft.delivered a.more);
  same =
      h.same
      ∙ ap (λ l. deliver_all l init_default)
          (sym (ap (take n) a.delivered ∙ take-append n s.raft.delivered a.more h.within));
}

handle_cmd-Advances :
    (op : Operation) (r : Raft Operation)
    → IsCommitted r.shared
    → Advances r.shared (handle_cmd op r).shared
unfolding handle_cmd
handle_cmd-Advances (get k) r h = Advances-refl r.shared h
handle_cmd-Advances invalid r h = Advances-refl r.shared h
handle_cmd-Advances (set k v) r h = append_entry-Advances (set k v) r h
handle_cmd-Advances (delete k) r h = append_entry-Advances (delete k) r h

Run-HasTaken : {s : KvStore} {n : ℕ} → Run s n → HasTaken s n
unfolding handle_message deliver_all
Run-HasTaken (starts t node_id conns addr p) = record {
  commited = new_from_config-IsCommitted t node_id conns addr p;
  within = omega arith;
  same = refl;
}
Run-HasTaken (works s n r run step) =
    let h = Run-HasTaken run in HasTaken-Advances s n r h (Step-Advances step h.commited)
Run-HasTaken (takes_command s n op run) =
    let h = Run-HasTaken run in
    HasTaken-Advances s n (handle_cmd op s.raft) h (handle_cmd-Advances op s.raft h.commited)
Run-HasTaken (takes_entry s n m run at) =
    let h = Run-HasTaken run in
    record {
      commited = h.commited;
      within = omega (arith, get_elem?-lt s.raft.delivered n at);
      same = ap (apply m) h.same ∙ sym (take_one_more n m s.raft.delivered init_default at);
    }

-- A store starts with an empty map, on a node with whatever state was read from its disk. Then
-- its node's steps, each under the lock, its clients' commands and the entries that its task
-- takes come in any order; no handler or commit panics, and a request for entries finds a log
-- shorter than 2^64, does not end inside it and ends below 2^64. At any time what has been
-- delivered is the log up to the commit index, which is inside the log, and the map is what the
-- beginning of the log, as long as the number of entries taken and no longer than the commit
-- index, makes of an empty one.
pub Run-prefix :
    (s : KvStore) (n : ℕ)
    → Run s n
    → (n ≤ s.raft.commited_index)
      × (s.raft.commited_index ≤ length s.raft.log)
      × (s.raft.delivered ≡ take s.raft.commited_index s.raft.log)
      × (s.storage ≡ deliver_all (take n s.raft.log) init_default)
Run-prefix s n run =
    let h = Run-HasTaken run in
    let c = s.raft.commited_index in
    let inside : n ≤ c = omega (
      arith,
      h.within,
      ap length h.commited.delivered,
      length-take_of_le c s.raft.log h.commited.within,
    ) in
    (
      inside,
      h.commited.within,
      h.commited.delivered,
      h.same
          ∙ ap (λ l. deliver_all l init_default)
              (ap (take n) h.commited.delivered ∙ take-take n c s.raft.log inside),
    )
