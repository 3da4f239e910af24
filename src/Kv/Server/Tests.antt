-- ===== src/Kv/Server/Tests.antt =====
-- A server that starts without a readable configuration, and one with a client.
use quaso.Prelude.{◌≡◌, refl, true, false, none, some, [], ◌∷◌}
use quaso.Prelude.Exec.{done, panic}
use quaso.HashMap as Map
use quaso.Text.{is_whitespace, trim, split}
use quaso.Config.{Yaml, parse_config}
use quaso.Raft.Data.{Timer}
use quaso.Raft.Persist.{Disk}
use quaso.Kv.Command.{Operation, set, parse_command}
use quaso.Kv.Store.{init_default, handle_client}
use quaso.Kv.Server.{
  start, Connection, greeting, bytes, end_of_stream, error, handle_reads, accept_client,
}

no_config :
    {Y : Type 0} (yaml : Yaml Y) (t : Timer) (disk : Disk Operation)
    → start yaml t disk none none ≡ (panic, none)
unfolding start parse_config
no_config yaml t disk = refl

abbrev new_connection : Connection
new_connection = record { queue = []; written = [] }

-- Greeted, answered, and left; what is read after the end of the stream is not looked at.
one_client :
    accept_client
      (λ n. init_default)
      (λ n. true)
      true
      (bytes (some "set k v") ∷ error true ∷ bytes (some "get k") ∷ end_of_stream ∷ bytes none ∷ [])
      new_connection
    ≡ (done tt, record { queue = set "k" "v" ∷ []; written = "OK." ∷ "OK." ∷ "undefined" ∷ [] })
unfolding accept_client greeting handle_client is_whitespace trim split parse_command Map.get
    init_default
one_client = refl

-- Text that is not UTF-8 panics the connection's task.
not_text :
    (handle_reads (λ n. init_default) (λ n. true) 0 (bytes none ∷ []) new_connection).0 ≡ panic
unfolding handle_reads handle_client
not_text = refl

no_shutdown :
    (handle_reads (λ n. init_default) (λ n. true) 0 (error false ∷ []) new_connection).0 ≡ panic
unfolding handle_reads
no_shutdown = refl
