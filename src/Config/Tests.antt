-- ===== src/Config/Tests.antt =====
-- The configuration of a node of the repository's compose file, as a document.
use quaso.Prelude.{
  ◌≡◌, refl, String, Option, none, some, List, [], ◌∷◌, arith, str_eq, if◌then◌else◌,
}
use quaso.Config.Number.{Integer, pos, max_u64, parse_u64}
use quaso.Config.{
  ok, err, panic, View, hash, string, integer, array, Yaml, Config, parse_config, io_error,
  parser_yaml_error, from_yaml_hash,
}
use quaso.Config.Reads.{HasKey, HasText, parse_config-Describes}

-- The values of the document.
data Node : Type 0 where
  root metadata services raft store connections : Node
  text : String → Node
  number : Integer → Node

abbrev lookup : List (String × Node) → String → Option Node
lookup [] key = none
lookup ((k, node) ∷ more) key = if str_eq k key then some node else lookup more key

abbrev root_entries : List (String × Node)
root_entries = ("metadata", metadata) ∷ ("services", services) ∷ []

abbrev metadata_entries : List (String × Node)
metadata_entries = ("node_name", text "node1") ∷ ("node_id", number (pos 16)) ∷ []

abbrev services_entries : List (String × Node)
services_entries = ("raft", raft) ∷ ("store", store) ∷ []

abbrev raft_entries : List (String × Node)
raft_entries =
    ("persist_file", text "/tmp/raft.state")
    ∷ ("listiner_addr", text "node1:8080")
    ∷ ("connections", connections)
    ∷ []

abbrev store_entries : List (String × Node)
store_entries = ("server_addr", text "node1:6060") ∷ ("local_path", text "/tmp/") ∷ []

abbrev addresses : List Node
addresses = text "node2:8080" ∷ text "node3:8080" ∷ []

abbrev node_view : Node → View Node
node_view root = hash (lookup root_entries)
node_view metadata = hash (lookup metadata_entries)
node_view services = hash (lookup services_entries)
node_view raft = hash (lookup raft_entries)
node_view store = hash (lookup store_entries)
node_view connections = array addresses
node_view (text s) = string s
node_view (number i) = integer i

-- A reader that knows this one document.
abbrev one_document : Yaml Node
one_document = record { view = node_view; load_from_str = λ content. some (root ∷ []) }

abbrev node1 : Config
node1 = record {
  node_id = 16;
  node_name = "node1";
  raft = record {
    persist_path = "/tmp/raft.state";
    listener_addr = "node1:8080";
    connections = "node2:8080" ∷ "node3:8080" ∷ [];
  };
  store = record { server_addr = "node1:6060"; local_path = "/tmp/" };
}

key :
    (k : String) (y value : Node) (entries : List (String × Node))
    → node_view y ≡ hash (lookup entries)
    → lookup entries k ≡ some value
    → HasKey one_document k y value
key k y value entries is_hash at = record { entries = lookup entries; is_hash = is_hash; at = at }

text_key :
    (k : String) (y : Node) (s : String) (entries : List (String × Node))
    → node_view y ≡ hash (lookup entries)
    → lookup entries k ≡ some (text s)
    → HasText one_document k y s
text_key k y s entries is_hash at = record {
  value = text s;
  key_at = key k y (text s) entries is_hash at;
  is_string = refl;
}

parse_config-Describes_example : parse_config one_document (some "config") ≡ ok node1
parse_config-Describes_example =
    parse_config-Describes one_document "config" root [] node1 refl (record {
      metadata = metadata;
      services = services;
      raft_yaml = raft;
      store_yaml = store;
      metadata_at = key "metadata" root metadata root_entries refl refl;
      services_at = key "services" root services root_entries refl refl;
      raft_at = key "raft" services raft services_entries refl refl;
      store_at = key "store" services store services_entries refl refl;
      name = text_key "node_name" metadata "node1" metadata_entries refl refl;
      id_value = number (pos 16);
      id_at = key "node_id" metadata (number (pos 16)) metadata_entries refl refl;
      is_id = refl;
      small = omega arith;
      persist_file = text_key "persist_file" raft "/tmp/raft.state" raft_entries refl refl;
      listener = text_key "listiner_addr" raft "node1:8080" raft_entries refl refl;
      connections_value = connections;
      connections_at = key "connections" raft connections raft_entries refl refl;
      addresses = addresses;
      is_array = refl;
      are_strings = (refl, (refl, tt));
      server = text_key "server_addr" store "node1:6060" store_entries refl refl;
      local = text_key "local_path" store "/tmp/" store_entries refl refl;
    })

largest : parse_u64 "18446744073709551615" ≡ some max_u64
unfolding parse_u64
largest = refl

-- One more is no `u64`, and neither is a number below zero.
too_large : parse_u64 "18446744073709551616" ≡ none
unfolding parse_u64
too_large = refl

negative : parse_u64 "-5" ≡ none
unfolding parse_u64
negative = refl

-- A key that is not there is a panic, not an error.
missing_key : from_yaml_hash one_document "listener_addr" raft ≡ panic
unfolding from_yaml_hash
missing_key = refl

no_hash : from_yaml_hash one_document "raft" connections ≡ err parser_yaml_error
unfolding from_yaml_hash
no_hash = refl

no_file : parse_config one_document none ≡ err io_error
unfolding parse_config
no_file = refl
