-- ===== src/Config/Reads.antt =====
-- A document with all that is asked for is read as the configuration that it describes.
use Prim.Native.Nat.{◌^◌}
use quaso.Prelude.{◌<◌, ◌≡◌, String, some, Option, ℕ, List, ◌∷◌}
use quaso.Text.{trim}
use quaso.Text.Words.{trim-word}
use quaso.Config.Number.{pos, format, format_nat}
use quaso.Config.Number.RoundTrip.{format_nat-IsWord, parse_u64-format}
use quaso.Config.{
  ok, hash, string, integer, array, Yaml, Config, from_yaml_hash, text_at, yaml_enum_to_string,
  read_sections, parse_config,
}
use quaso.Config.Lists.{AreStrings, yaml_to_vec_string_iff}

module _ {Y : Type 0} (yaml : Yaml Y) where
  -- The value at a key of a hash.
  pub record HasKey (key : String) (y value : Y) : Type 0 where
    pub entries : String → Option Y
    pub is_hash : yaml.view y ≡ hash entries
    pub at : entries key ≡ some value

  -- A string at a key.
  pub record HasText (key : String) (y : Y) (text : String) : Type 0 where
    pub value : Y
    pub key_at : HasKey key y value
    pub is_string : yaml.view value ≡ string text

  -- The document of a configuration.
  pub record Describes (first : Y) (config : Config) : Type 0 where
    pub metadata : Y
    pub services : Y
    pub raft_yaml : Y
    pub store_yaml : Y
    pub metadata_at : HasKey "metadata" first metadata
    pub services_at : HasKey "services" first services
    pub raft_at : HasKey "raft" services raft_yaml
    pub store_at : HasKey "store" services store_yaml
    pub name : HasText "node_name" metadata config.node_name
    pub id_value : Y
    pub id_at : HasKey "node_id" metadata id_value
    pub is_id : yaml.view id_value ≡ integer (pos config.node_id)
    pub small : config.node_id < 2 ^ 63
    pub persist_file : HasText "persist_file" raft_yaml config.raft.persist_path
    pub listener : HasText "listiner_addr" raft_yaml config.raft.listener_addr
    pub connections_value : Y
    pub connections_at : HasKey "connections" raft_yaml connections_value
    pub addresses : List Y
    pub is_array : yaml.view connections_value ≡ array addresses
    pub are_strings : AreStrings yaml addresses config.raft.connections
    pub server : HasText "server_addr" store_yaml config.store.server_addr
    pub local : HasText "local_path" store_yaml config.store.local_path

  from_yaml_hash-HasKey :
      (key : String) (y value : Y) → HasKey key y value → from_yaml_hash yaml key y ≡ ok value
  unfolding from_yaml_hash
  from_yaml_hash-HasKey key y value h = rw (h.is_hash, h.at)

  text_at-HasText :
      (key : String) (y : Y) (text : String) → HasText key y text → text_at yaml key y ≡ ok text
  unfolding text_at yaml_enum_to_string
  text_at-HasText key y text h = rw (from_yaml_hash-HasKey key y h.value h.key_at, h.is_string)

  text_at-integer :
      (key : String) (y value : Y) (n : ℕ)
      → HasKey key y value
      → yaml.view value ≡ integer (pos n)
      → text_at yaml key y ≡ ok (format (pos n))
  unfolding text_at yaml_enum_to_string
  text_at-integer key y value n h e = rw (from_yaml_hash-HasKey key y value h, e)

  trim-format : (n : ℕ) → trim (format (pos n)) ≡ format (pos n)
  unfolding format
  trim-format n = trim-word (format_nat n) (format_nat-IsWord n)

  read_sections-Describes :
      (first : Y) (config : Config) (d : Describes first config)
      → read_sections yaml d.metadata d.raft_yaml d.store_yaml ≡ ok config
  unfolding read_sections
  read_sections-Describes first config d = rw (
    text_at-HasText "node_name" d.metadata config.node_name d.name,
    text_at-integer "node_id" d.metadata d.id_value config.node_id d.id_at d.is_id,
    trim-format config.node_id,
    parse_u64-format config.node_id d.small,
    text_at-HasText "persist_file" d.raft_yaml config.raft.persist_path d.persist_file,
    text_at-HasText "listiner_addr" d.raft_yaml config.raft.listener_addr d.listener,
    from_yaml_hash-HasKey "connections" d.raft_yaml d.connections_value d.connections_at,
    (yaml_to_vec_string_iff yaml d.connections_value config.raft.connections).1
        (d.addresses, d.is_array, d.are_strings),
    text_at-HasText "server_addr" d.store_yaml config.store.server_addr d.server,
    text_at-HasText "local_path" d.store_yaml config.store.local_path d.local,
  )

  -- A file whose text is read as a document with all that is asked for, the node's id an
  -- integer that is not negative and below 2^63 and the connections strings, gives the
  -- configuration that the document describes.
  pub parse_config-Describes :
      (content : String) (first : Y) (more : List Y) (config : Config)
      → yaml.load_from_str content ≡ some (first ∷ more)
      → Describes first config
      → parse_config yaml (some content) ≡ ok config
  unfolding parse_config
  parse_config-Describes content first more config loaded d = rw (
    loaded,
    from_yaml_hash-HasKey "metadata" first d.metadata d.metadata_at,
    from_yaml_hash-HasKey "services" first d.services d.services_at,
    from_yaml_hash-HasKey "raft" d.services d.raft_yaml d.raft_at,
    from_yaml_hash-HasKey "store" d.services d.store_yaml d.store_at,
    read_sections-Describes first config d,
  )
