-- ===== src/Kv/Store/Clients.antt =====
-- What a client is told, and what becomes of its command.
use quaso.Prelude.{
  ◌≡◌, ◌≢◌, refl, ap, ◌∙◌, Bool, true, ◌<◌, ◌++◌, List, [], ◌∷◌, arith, length, usize_mod,
}
use quaso.Prelude.Exec.{done}
use quaso.Raft.Data.{leader, role_eq, Timer, AppendEntriesRequest, set_log}
use quaso.Raft.Append.{append_entries}
use quaso.Raft.Append.Commit.{HasAppended}
use quaso.Raft.Append.Outcome.{Takes, Takes-HasAppended}
use quaso.Raft.Node.{Raft, on_node_state, append_entry}
use quaso.Kv.Command.{Operation, set, get, delete, invalid}
use quaso.Kv.Store.{Storage, answer, handle_cmd}

-- The commands that go through the log.
abbrev pub IsWrite : Operation → Type 0
IsWrite (set k v) = Unit
IsWrite (delete k) = Unit
IsWrite _ = ⊥

append_entry-follower :
    (op : Operation) (r : Raft Operation) → r.node_type ≢ leader → append_entry op r ≡ r
unfolding append_entry
append_entry-follower op r h = ground arith

pub append_entry-leader :
    (op : Operation) (r : Raft Operation)
    → r.node_type ≡ leader
    → append_entry op r
      ≡ on_node_state (set_log (r.log ++ record { value = op; term = r.node_term } ∷ [])) r
unfolding append_entry
append_entry-leader op r h = rw (ap (λ x. role_eq x leader) h)

pub answer-write :
    (sl : Storage) (b : Bool) (op : Operation) (queue : List Operation)
    → IsWrite op
    → b ≡ true
    → answer sl b op queue ≡ (done "OK.", queue ++ op ∷ [])
unfolding answer
answer-write sl b (set k v) queue w h = rw h
answer-write sl b (delete k) queue w h = rw h
answer-write sl b (get k) queue w h = absurd w
answer-write sl b invalid queue w h = absurd w

handle_cmd-write :
    (op : Operation) (r : Raft Operation) → IsWrite op → handle_cmd op r ≡ append_entry op r
unfolding handle_cmd
handle_cmd-write (set k v) r w = refl
handle_cmd-write (delete k) r w = refl
handle_cmd-write (get k) r w = absurd w
handle_cmd-write invalid r w = absurd w

module _ (sl : Storage) (queue : List Operation) (op : Operation) (write : IsWrite op) where
  -- On a leader whose flag is up, `set` and `delete` are acknowledged and queued, and once
  -- handled are the last entry of the log, with the leader's term; the commit index does not
  -- move.
  pub leader_write :
      (r : Raft Operation)
      → r.node_type ≡ leader
      → r.is_leader ≡ true
      → (answer sl r.is_leader op queue ≡ (done "OK.", queue ++ op ∷ []))
        × ((handle_cmd op r).log ≡ r.log ++ record { value = op; term = r.node_term } ∷ [])
        × ((handle_cmd op r).commited_index ≡ r.commited_index)
  leader_write r role flag =
      let end : handle_cmd op r
          ≡ on_node_state (set_log (r.log ++ record { value = op; term = r.node_term } ∷ [])) r =
        handle_cmd-write op r write ∙ append_entry-leader op r role in
      (
        answer-write sl r.is_leader op queue write flag,
        ap (λ (x : Raft Operation). x.log) end,
        ap (λ (x : Raft Operation). x.commited_index) end,
      )

  -- A node whose flag is up takes the entries of another leader, on a log shorter than 2^64.
  -- Its flag stays up: `set` and `delete` are acknowledged, and their handling changes nothing.
  pub acknowledged_write_dropped :
      (r : Raft Operation) (t : Timer) (req : AppendEntriesRequest Operation)
      → length r.log < usize_mod
      → Takes req r.state
      → r.is_leader ≡ true
      → let r' = record r { shared = (append_entries r.node_id t req r.shared).1 } in
        (answer sl r'.is_leader op queue ≡ (done "OK.", queue ++ op ∷ [])) × (handle_cmd op r' ≡ r')
  acknowledged_write_dropped r t req small takes flag =
      let r' = record r { shared = (append_entries r.node_id t req r.shared).1 } in
      let has : HasAppended req r.shared r'.shared =
        Takes-HasAppended r.node_id t req r.shared small takes in
      (
        answer-write sl r.is_leader op queue write flag,
        handle_cmd-write op r' write ∙ append_entry-follower op r' (λ e. cc (has.role)),
      )
