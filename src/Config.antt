-- ===== src/Config.antt =====
-- raft/src/utils.rs: the configuration of a node, read from a YAML file. Nothing is said of how the
-- crate yaml_rust2 reads YAML: `Yaml` shows what the program asks of a value.
pub mod Number
pub mod Reads
pub mod Lists
mod Tests
use quaso.Prelude.{ℕ, String, Bool, true, false, Option, none, some, List, [], ◌∷◌, ◌++◌}
use quaso.Text.{trim}
use Number.{Integer, format, parse_u64}

-- Of the three kinds of error the reading of a file and of the values give two.
pub data HelperErrors : Type 0 where
  io_error socket_parser_error parser_yaml_error : HelperErrors

-- A `Result`, or a panic.
pub data Parsed (A : Type 0) : Type 0 where
  ok : A → Parsed A
  err : HelperErrors → Parsed A
  panic : Parsed A

module _ {A B : Type 0} where
  infixl 10 ◌>>=◌
  abbrev pub ◌>>=◌ : Parsed A → (A → Parsed B) → Parsed B
  ok a >>= f = f a
  err e >>= f = err e
  panic >>= f = panic

-- `unwrap` of a result and of an option.
abbrev pub unwrap : {A : Type 0} → Parsed A → Parsed A
unwrap (ok a) = ok a
unwrap (err e) = panic
unwrap panic = panic

abbrev pub unwrap_option : {A : Type 0} → Option A → Parsed A
unwrap_option none = panic
unwrap_option (some a) = ok a

-- What a value is: `null`, a hash with what stands at a string key, a string, an integer, an array,
-- or one of the kinds that the program does not ask for.
pub data View (Y : Type 0) : Type 0 where
  null : View Y
  hash : (String → Option Y) → View Y
  string : String → View Y
  integer : Integer → View Y
  array : List Y → View Y
  other : View Y

pub record RaftConfig : Type 0 where
  pub persist_path : String
  pub listener_addr : String
  pub connections : List String

pub record StoreConfig : Type 0 where
  pub server_addr : String
  pub local_path : String

pub record Config : Type 0 where
  pub node_id : ℕ
  pub node_name : String
  pub raft : RaftConfig
  pub store : StoreConfig

-- Values, with the kind of each, and what the parser makes of a text: documents, or an error.
pub record Yaml (Y : Type 0) : Type 0 where
  pub view : Y → View Y
  pub load_from_str : String → Option (List Y)

module _ {Y : Type 0} where
  -- The matches on the kind of a value. `&val[key]` panics where there is no such key.
  abbrev pub hash_at : String → View Y → Parsed Y
  hash_at key (hash val) = unwrap_option (val key)
  hash_at key null = err parser_yaml_error
  hash_at key (string s) = err parser_yaml_error
  hash_at key (integer i) = err parser_yaml_error
  hash_at key (array ys) = err parser_yaml_error
  hash_at key other = err parser_yaml_error

  abbrev pub text_of : View Y → Parsed String
  text_of (string val) = ok val
  text_of (integer val) = ok (format val)
  text_of null = err parser_yaml_error
  text_of (hash val) = err parser_yaml_error
  text_of (array ys) = err parser_yaml_error
  text_of other = err parser_yaml_error

  abbrev pub string_of : View Y → Parsed String
  string_of (string string_val) = ok string_val
  string_of null = err parser_yaml_error
  string_of (integer i) = err parser_yaml_error
  string_of (hash val) = err parser_yaml_error
  string_of (array ys) = err parser_yaml_error
  string_of other = err parser_yaml_error

  abbrev pub array_of : View Y → Parsed (List Y)
  array_of (array yaml_arr) = ok yaml_arr
  array_of null = err parser_yaml_error
  array_of (string s) = err parser_yaml_error
  array_of (integer i) = err parser_yaml_error
  array_of (hash val) = err parser_yaml_error
  array_of other = err parser_yaml_error

module _ {Y : Type 0} (yaml : Yaml Y) where
  unfoldable pub from_yaml_hash : String → Y → Parsed Y
  from_yaml_hash key yaml_content = hash_at key (yaml.view yaml_content)

  unfoldable pub yaml_enum_to_string : Y → Parsed String
  yaml_enum_to_string yaml_inp = text_of (yaml.view yaml_inp)

  -- The loop; the first value that is no string ends it.
  unfoldable pub push_strings : List String → List Y → Parsed (List String)
  push_strings ret_vec [] = ok ret_vec
  push_strings ret_vec (yaml_val ∷ yaml_arr) = do
    string_val ← string_of (yaml.view yaml_val)
    push_strings (ret_vec ++ string_val ∷ []) yaml_arr

  unfoldable pub yaml_to_vec_string : Y → Parsed (List String)
  unfolding push_strings
  yaml_to_vec_string yaml_inp = do
    yaml_arr ← array_of (yaml.view yaml_inp)
    push_strings [] yaml_arr

  -- `from_yaml_hash(key, yaml).and_then(yaml_enum_to_string)?`
  unfoldable pub text_at : String → Y → Parsed String
  unfolding from_yaml_hash yaml_enum_to_string
  text_at key y = do value ← from_yaml_hash key y; yaml_enum_to_string value

  -- `yaml_content.first().unwrap()`
  abbrev pub first_of : List Y → Parsed Y
  first_of [] = panic
  first_of (y ∷ ys) = ok y

  -- From the three sections on.
  unfoldable pub read_sections : Y → Y → Y → Parsed Config
  unfolding text_at yaml_to_vec_string
  read_sections metadata raft_conf_yaml store_conf_yaml = do
    node_name ← text_at "node_name" metadata
    id_text ← text_at "node_id" metadata
    node_id ← unwrap_option (parse_u64 (trim id_text))
    persist_path ← text_at "persist_file" raft_conf_yaml
    listener_addr ← text_at "listiner_addr" raft_conf_yaml
    connections_yaml ← from_yaml_hash "connections" raft_conf_yaml
    connections ← yaml_to_vec_string connections_yaml
    server_addr ← text_at "server_addr" store_conf_yaml
    local_path ← text_at "local_path" store_conf_yaml
    ok (record {
      node_id = node_id;
      node_name = node_name;
      raft = record {
        persist_path = persist_path;
        listener_addr = listener_addr;
        connections = connections;
      };
      store = record { server_addr = server_addr; local_path = local_path };
    })

  -- `content` is what `fs::read_to_string` gives.
  unfoldable pub parse_config : Option String → Parsed Config
  unfolding from_yaml_hash read_sections
  parse_config none = err io_error
  parse_config (some content) = do
    yaml_content ← unwrap_option (yaml.load_from_str content)
    first ← first_of yaml_content
    metadata ← unwrap (from_yaml_hash "metadata" first)
    services_yaml ← unwrap (from_yaml_hash "services" first)
    raft_conf_yaml ← unwrap (from_yaml_hash "raft" services_yaml)
    store_conf_yaml ← unwrap (from_yaml_hash "store" services_yaml)
    read_sections metadata raft_conf_yaml store_conf_yaml
