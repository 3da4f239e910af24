-- ===== src/Kv/Server.antt =====
-- The server program, kv/src/main.rs: a node starts from its configuration and its file, greets every
-- client, and reads commands from each connection until there are none.
mod Tests
use quaso.Prelude.{
  ℕ, ◌+◌, String, Bool, true, false, Option, none, some, List, [], ◌∷◌, ◌++◌, if◌then◌else◌,
}
use quaso.Prelude.Exec.{Exec, Outcome, done, panic, pure, lift, modify, ◌>>=◌, ◌>>◌}
use quaso.Config.{Config, Parsed, ok, err, Yaml, parse_config}
use quaso.Config as Conf
use quaso.Raft.Data.{Timer}
use quaso.Raft.Node.{new_from_config}
use quaso.Raft.Persist.{File, Disk, init_state}
use quaso.Kv.Command.{Operation}
use quaso.Kv.Store.{Storage, KvStore, init_default, handle_client}

-- `KVStore::init_from_conf`; both channels start empty.
unfoldable pub init_from_conf : Timer → Disk Operation → Config → Exec File KvStore
unfolding new_from_config init_state init_default
init_from_conf t disk config = do
  persisted ← init_state disk
  pure (record {
    storage = init_default;
    raft =
        new_from_config t config.node_id config.raft.connections config.raft.listener_addr
          persisted;
  })

-- `expect("failed to parse config")`
abbrev pub parsed : {A : Type 0} → Parsed A → Outcome A
parsed (ok a) = done a
parsed (err e) = panic
parsed Conf.panic = panic

-- `main`, as far as the node's tasks: the text of the file of `conf_path`, if it can be read.
unfoldable pub start :
    {Y : Type 0} → Yaml Y → Timer → Disk Operation → Option String → Exec File KvStore
unfolding parse_config init_from_conf
start yaml t disk content = do
  config ← lift (parsed (parse_config yaml content))
  init_from_conf t disk config

-- What `main` writes to a connection that it accepts.
unfoldable pub greeting : Bool → String
greeting leader_ref = if leader_ref then "OK." else "WARN. Not Leader"

-- What `read_buf` gives: bytes, as text if they are UTF-8; none at the end of the stream; or an error,
-- after which the stream can be shut down or not.
pub data Read : Type 0 where
  bytes : Option String → Read
  end_of_stream : Read
  error : Bool → Read

-- The queue behind a connection, and what was written to it.
pub record Connection : Type 0 where
  pub queue : List Operation
  pub written : List String

abbrev write_to : Outcome String → Connection → Outcome (Unit {0}) × Connection
write_to (done reply) c = (done tt, record c { written = c.written ++ reply ∷ [] })
write_to panic c = (panic, c)

-- The map and the flag are those at the time of the command.
module _ (sl : ℕ → Storage) (leads : ℕ → Bool) where
  unfoldable pub answer_read : ℕ → Option String → Exec Connection (Unit {0})
  unfolding handle_client
  answer_read n cmd c =
      let (reply, queue) = handle_client (sl n) (leads n) cmd c.queue in
      write_to reply (record c { queue = queue })

  -- The loop of `KVStore::handle_client`. An error does not end it.
  unfoldable pub handle_reads : ℕ → List Read → Exec Connection (Unit {0})
  unfolding answer_read
  handle_reads n [] = pure tt
  handle_reads n (end_of_stream ∷ reads) = pure tt
  handle_reads n (error true ∷ reads) = handle_reads (n + 1) reads
  handle_reads n (error false ∷ reads) = lift panic
  handle_reads n (bytes cmd ∷ reads) = do answer_read n cmd; handle_reads (n + 1) reads

  -- An accepted connection: the greeting comes first.
  unfoldable pub accept_client : Bool → List Read → Exec Connection (Unit {0})
  unfolding handle_reads
  accept_client leader_ref reads = do
    modify (λ c. record c { written = c.written ++ greeting leader_ref ∷ [] })
    handle_reads 0 reads
