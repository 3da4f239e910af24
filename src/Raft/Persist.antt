-- ===== src/Raft/Persist.antt =====
-- How raft/src/server/state.rs keeps the persistent state in a file: `PersistentState::init_state`
-- and `persist`, and `Raft::try_persist_state`.
pub mod Restart
pub mod Truncated
mod Tests
use quaso.Prelude.{
  ℕ, ◌+◌, Bool, true, false, Option, none, some, List, [], ltb, leb, if◌then◌else◌, length, take,
}
use quaso.Prelude.Exec.{Exec, Outcome, done, panic, pure, lift, gets, modify, expect, ◌>>=◌, ◌>>◌}
use quaso.Raft.Data.{NodeId, LogIndex, Instant, LogEntry, PersistentState}
use quaso.Raft.Client.{Bytes}
use quaso.Raft.Node.{Raft, on_node_state}

-- What is at the path: nothing, or a file.
abbrev pub File : Type 0
File = Option Bytes

-- bincode, and the file system: what `remove_file` leaves, whether the file can be opened and can
-- be created, and what is in it after bytes are written, with whether that went well.
pub record Disk (T : Type 0) : Type 0 where
  pub serialize : PersistentState T → Option Bytes
  pub deserialize : Bytes → Option (PersistentState T)
  pub remove : File → File
  pub opens : Bool
  pub creates : Bool
  pub write : Bytes → Bytes × Bool

-- A node and the file at its path.
abbrev pub Stored : Type 0 → Type 0
Stored T = Raft T × File

module _ {T : Type 0} where
  abbrev pub fresh_state : PersistentState T
  fresh_state = record { node_term = 0; voted_for = none; log = [] }

  -- `write_all` of the first state; a failure panics.
  first_write : Disk T → Option Bytes → Exec File (Unit {0})
  first_write disk none file = (panic, file)
  first_write disk (some ser_state) file =
      let (written, went_well) = disk.write ser_state in
      (if went_well then done tt else panic, some written)

  create_state : Disk T → Exec File (PersistentState T)
  unfolding first_write
  create_state disk file =
      if disk.creates
      then (do first_write disk (disk.serialize fresh_state); pure fresh_state) (some [])
      else (done fresh_state, file)

  -- `init_state`; reading goes on until there is no more.
  unfoldable pub init_state : Disk T → Exec File (PersistentState T)
  unfolding create_state
  init_state disk none = create_state disk none
  init_state disk (some buf) =
      if disk.opens then (expect (disk.deserialize buf), some buf) else create_state disk (some buf)

  -- `state.log[0..commit_index]`
  abbrev slice_to : List (LogEntry T) → LogIndex → Option (List (LogEntry T))
  slice_to log k = if leb k (length log) then some (take k log) else none

  unfoldable pub log_to_persist : LogIndex → List (LogEntry T) → Outcome (List (LogEntry T))
  log_to_persist commit_index log =
      if ltb 0 commit_index then expect (slice_to log commit_index) else done []

  -- The lines from `remove_file` on; an error is only logged.
  unfoldable pub replace_file : Disk T → Bytes → File → File
  replace_file disk ser_state file =
      let removed = disk.remove file in
      if disk.creates then some (disk.write ser_state).0 else removed

  unfoldable pub persist : Disk T → LogIndex → PersistentState T → Exec File (Unit {0})
  unfolding log_to_persist replace_file
  persist disk commit_index state = do
    log ← lift (log_to_persist commit_index state.log)
    ser_state ← lift (expect (disk.serialize (record state { log = log })))
    modify (replace_file disk ser_state)

  abbrev pub set_persist_timeout : Instant → Raft T → Raft T
  set_persist_timeout i =
      on_node_state
        (λ s. record s { volatile_state = record s.volatile_state { persist_timeout = i } })

  abbrev pub on_file : Exec File (Unit {0}) → Exec (Stored T) (Unit {0})
  on_file m (r, file) = let (o, file') = m file in (o, (r, file'))

  -- `now` is the time of the test, and `later` that of the reset.
  unfoldable pub try_persist_state : Disk T → Instant → Instant → Exec (Stored T) (Unit {0})
  unfolding persist
  try_persist_state disk now later (r, file) =
      if ltb r.persist_timeout now
      then (do
        on_file (persist disk r.commited_index r.persistent_state)
        modify (λ n. (set_persist_timeout (later + 5000) n.0, n.1)))
          (r, file)
      else (done tt, (r, file))
