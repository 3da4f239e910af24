-- ===== src/Kv/Client/Wire.antt =====
-- The connection between a client's program and the store's task for it, and the two sides answering
-- each other: kv/src/bin/client.rs and `KVStore::handle_client` of kv/src/storage/kv.rs. Both read with
-- one `read_buf` into a fresh `Vec`, which takes at most 64 bytes; how what is written is cut into reads
-- is tokio's, and is a parameter.
use Prim.Native.String.append.{cons}
use Prim.Native.String.{len, ◌++◌}
use quaso.Prelude.{
  ℕ, ◌+◌, ◌≤◌, ◌≡◌, ◌≢◌, refl, sym, ap, String, Bool, true, false, Option, some, List, [], ◌∷◌,
  if◌then◌else◌, length, map, arith,
}
use quaso.Prelude.Exec.{Outcome, done, panic}
use quaso.Text.{is_empty, split}
use quaso.Kv.Command.{Operation, get, invalid, parse_command}
use quaso.Kv.Store.{Storage, storage_get, value_reply, answer, handle_client}
use quaso.Kv.Server.{bytes, handle_reads}

abbrev Bytes : Type 0
Bytes = List ℕ

pub record Wire : Type 0 where
  -- What the store's task reads once a line is written to it, each read as text if it is UTF-8, and the
  -- bytes that it has still to read when the client has its answer; what was left before comes first.
  pub store_reads : Bytes → String → List (Option String) × Bytes
  -- What the client reads, as text if it is UTF-8, and the bytes that are left for its next read: after
  -- those left before come the replies, and the end of the stream if the store's task is gone. `none`
  -- also stands for a connection that fails.
  pub client_read : Bytes → List String → Bool → Option String × Bytes

-- With nothing left unread, a text of at most 64 bytes that is written in one call is read in one call.
pub record IsWire (wire : Wire) : Type 0 where
  pub one_line :
      (line : String) → line ≢ "" → len line ≤ 64 → wire.store_reads [] line ≡ (some line ∷ [], [])
  pub one_reply :
      (reply : String)
      → reply ≢ ""
      → len reply ≤ 64
      → wire.client_read [] (reply ∷ []) false ≡ (some reply, [])

-- The store's side of a connection: the queue, the number of reads that were handled, whether the task
-- has panicked, which closes the connection, and what is unread in each direction.
pub record Peer : Type 0 where
  pub queue : List Operation
  pub served : ℕ
  pub closed : Bool
  pub commands : Bytes
  pub replies : Bytes

abbrev is_panic : {A : Type 0} → Outcome A → Bool
is_panic (done a) = false
is_panic panic = true

-- An open connection with nothing unread.
abbrev pub idle : List Operation → ℕ → Peer
idle queue served = record {
  queue = queue;
  served = served;
  closed = false;
  commands = [];
  replies = [];
}

-- The map and the flag are those at the time of the read.
module _ (sl : ℕ → Storage) (leads : ℕ → Bool) (wire : Wire) where
  abbrev after_close : Peer → Option String × Peer
  after_close p =
      let (resp, replies) = wire.client_read p.replies [] true in
      (resp, record p { replies = replies })

  abbrev with_reads : List (Option String) → Bytes → Peer → Option String × Peer
  with_reads cmds commands p =
      let (o, c) =
        handle_reads sl leads p.served (map bytes cmds)
          (record { queue = p.queue; written = [] }) in
      let (resp, replies) = wire.client_read p.replies c.written (is_panic o) in
      (
        resp,
        record {
          queue = c.queue;
          served = p.served + length cmds;
          closed = is_panic o;
          commands = commands;
          replies = replies;
        },
      )

  -- A line is written to the store's task, which handles what it reads, and the client reads once.
  unfoldable pub serve_client : String → Peer → Option String × Peer
  unfolding handle_reads
  serve_client buf p =
      let (cmds, commands) = wire.store_reads p.commands buf in
      if p.closed then after_close p else with_reads cmds commands p

  pub one_answered :
      (buf : String) (queue queue' : List Operation) (served : ℕ) (reply : String)
      → IsWire wire
      → buf ≢ ""
      → len buf ≤ 64
      → handle_client (sl served) (leads served) (some buf) queue ≡ (done reply, queue')
      → reply ≢ ""
      → len reply ≤ 64
      → serve_client buf (idle queue served) ≡ (some reply, idle queue' (served + 1))
  unfolding serve_client
  one_answered buf queue queue' served reply h line fits e nonempty short =
      rw (h.one_line buf line fits, e, h.one_reply reply nonempty short)

  pub one_panicked :
      (buf : String) (queue queue' : List Operation) (served : ℕ)
      → IsWire wire
      → buf ≢ ""
      → len buf ≤ 64
      → handle_client (sl served) (leads served) (some buf) queue ≡ (panic, queue')
      → let p = (serve_client buf (idle queue served)).1 in
        (p.queue ≡ queue') × (p.served ≡ served + 1) × (p.closed ≡ true)
  unfolding serve_client
  one_panicked buf queue queue' served h line fits e =
      rw (h.one_line buf line fits, e) (refl, refl, refl)

  pub closed_stays :
      (buf : String) (p : Peer)
      → p.closed ≡ true
      → let p' = (serve_client buf p).1 in
        (p'.queue ≡ p.queue) × (p'.served ≡ p.served) × (p'.closed ≡ true)
  unfolding serve_client
  closed_stays buf p h = rw h (refl, refl, refl)

-- Every value that is read from the map is sent back in at most 64 bytes.
abbrev pub ValuesFit : (ℕ → Storage) → Type 0
ValuesFit sl = (n : ℕ) (key : String) → len (value_reply (storage_get key (sl n))) ≤ 64

-- An answer to one command is not empty, and has at most 64 bytes.
module _ (sl : ℕ → Storage) (values : ValuesFit sl) where
  starts : {s : String} → is_empty s ≡ false → s ≢ ""
  unfolding is_empty
  starts h e = cc

  is_empty-append : (s t : String) → is_empty s ≡ false → is_empty (s ++ t) ≡ false
  unfolding is_empty
  is_empty-append String.[] t h = cc
  is_empty-append (String.◌∷◌ c s) t h = rw (cons c s t) refl

  value_nonempty : (v : Option String) → value_reply v ≢ ""
  unfolding value_reply is_empty
  value_nonempty Option.none = starts refl
  value_nonempty (some v) = starts (is_empty-append "\"" (v ++ "\"") refl)

  answer-fits :
      (n : ℕ) (b : Bool) (op : Operation) (queue : List Operation) (reply : String)
      → (answer (sl n) b op queue).0 ≡ done reply
      → (reply ≢ "") × (len reply ≤ 64)
  unfolding answer is_empty
  answer-fits n b (get key) queue reply e =
      let same : value_reply (storage_get key (sl n)) ≡ reply = cc in
      rw (sym same) (value_nonempty (storage_get key (sl n)), values n key)
  answer-fits n true op queue reply e =
      let same : "OK." ≡ reply = cc in rw (sym same) (starts refl, omega arith)
  answer-fits n false op queue reply e =
      let same : "ERR. Not Leader" ≡ reply = cc in rw (sym same) (starts refl, omega arith)

  pub reply-fits :
      (n : ℕ) (b : Bool) (buf : String) (queue queue' : List Operation) (reply : String)
      → handle_client (sl n) b (some buf) queue ≡ (done reply, queue')
      → (reply ≢ "") × (len reply ≤ 64)
  unfolding handle_client
  reply-fits n b buf queue queue' reply e = go (parse_command buf) refl
    where
      go : (o : Outcome Operation) → parse_command buf ≡ o → (reply ≢ "") × (len reply ≤ 64)
      go panic p = cc
      go (done op) p =
          answer-fits n b op queue reply
            (ap (λ (x : Outcome String × List Operation). x.0) (rw p at e))

pub command_nonempty : (buf : String) → parse_command buf ≢ done invalid → buf ≢ ""
unfolding parse_command split
command_nonempty buf h e = h (rw e refl)
