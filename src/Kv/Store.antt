-- ===== src/Kv/Store.antt =====
-- `StorageLayer` and `KVStore` of kv/src/storage/kv.rs: the map, the entries that the consensus
-- layer delivers to it, and the commands of clients.
pub mod Agree
pub mod Apply
pub mod Clients
pub mod Replica
pub mod Run
mod Tests
use Prim.Native.String.{◌++◌}
use quaso.Prelude.{String, Bool, true, false, Option, none, some, List, [], ◌∷◌, if◌then◌else◌}
use mathlib.Core.List.{◌++◌ as append}
use quaso.Prelude.Exec.{Exec, Outcome, done, panic, pure, lift, expect, ◌>>=◌}
use quaso.HashMap as Map
use quaso.HashMap.{HashMap}
use quaso.Raft.Data.{LogEntry}
use quaso.Raft.Node.{Raft, append_entry}
use quaso.Kv.Command.{Operation, set, get, delete, invalid, parse_command}

abbrev pub Storage : Type 0
Storage = HashMap String

unfoldable pub init_default : Storage
init_default = []

-- `StorageLayer::get`, `insert`, `set` (an `entry` that is modified or inserted) and `delete`.
unfoldable pub storage_get : String → Storage → Option String
storage_get key m = Map.get key m

unfoldable pub storage_set : String → String → Storage → Storage
storage_set key value m = Map.insert key value m

unfoldable pub storage_insert : String → String → Storage → Storage
storage_insert key value m = Map.insert key value m

unfoldable pub storage_delete : String → Storage → Storage
storage_delete key m = Map.remove key m

-- `KVStore::apply`
apply_operation : Operation → Storage → Storage
unfolding storage_set storage_delete
apply_operation (set key value) m = storage_set key value m
apply_operation (delete key) m = storage_delete key m
apply_operation _ m = m

unfoldable pub apply : LogEntry Operation → Storage → Storage
unfolding apply_operation
apply message m = apply_operation message.value m

-- The loop of `start_deliver_interface`, over what is delivered.
unfoldable pub deliver_all : List (LogEntry Operation) → Storage → Storage
unfolding apply
deliver_all [] m = m
deliver_all (message ∷ messages) m = deliver_all messages (apply message m)

-- `KVStore::handle_cmd`; its reads change nothing.
unfoldable pub handle_cmd : Operation → Raft Operation → Raft Operation
handle_cmd (get key) r = r
handle_cmd invalid r = r
handle_cmd (set key value) r = append_entry (set key value) r
handle_cmd (delete key) r = append_entry (delete key) r

-- The two receivers of `generic_handler_interface`, in the order in which they are ready.
pub data Message : Type 0 where
  from_client : Operation → Message
  from_raft : LogEntry Operation → Message

-- The store's part of the state: the map and the consensus layer.
pub record KvStore : Type 0 where
  pub storage : Storage
  pub raft : Raft Operation

unfoldable pub handle_message : Message → KvStore → KvStore
unfolding handle_cmd apply
handle_message (from_client client_message) s = record s { raft = handle_cmd client_message s.raft }
handle_message (from_raft raft_message) s = record s { storage = apply raft_message s.storage }

unfoldable pub generic_handler_interface : List Message → KvStore → KvStore
unfolding handle_message
generic_handler_interface [] s = s
generic_handler_interface (m ∷ ms) s = generic_handler_interface ms (handle_message m s)

unfoldable pub value_reply : Option String → String
value_reply none = "undefined"
value_reply (some temp) = "\"" ++ temp ++ "\""

-- A command that is no read is acknowledged once it is in the queue of `client_tx`.
write_reply : Bool → Operation → Exec (List Operation) String
write_reply leader parsed queue =
    if leader then (done "OK.", append queue (parsed ∷ [])) else (done "ERR. Not Leader", queue)

unfoldable pub answer : Storage → Bool → Operation → Exec (List Operation) String
unfolding value_reply storage_get write_reply
answer sl leader_ref (get key) queue = (done (value_reply (storage_get key sl)), queue)
answer sl leader_ref parsed queue = write_reply leader_ref parsed queue

-- One round of `KVStore::handle_client`: `cmd` is the text that was read, if it is UTF-8.
unfoldable pub handle_client : Storage → Bool → Option String → Exec (List Operation) String
unfolding answer
handle_client sl leader_ref cmd = do
  text ← lift (expect cmd)
  parsed ← lift (parse_command text)
  answer sl leader_ref parsed
