-- ===== src/Kv/Client/Tests.antt =====
-- Clients of a leader and of a follower.
use Prim.Native.Char.{Char, char, code, nul}
use Prim.Native.Nat.{Ordering, compare}
use Prim.Native.String.{len, slice, ◌++◌}
use Prim.Native.String.append.{nil}
use quaso.Prelude.{
  str_eq, Bool-cases, inl, ℕ, zero, suc, ◌/◌, leb, le→leb, inr, All, arith, if◌then◌else◌, ◌≡◌,
  refl, String, true, false, Option, none, some, List, [], ◌∷◌,
}
use quaso.HashMap as Map
use quaso.Text.{is_whitespace, is_empty, trim, split}
use quaso.Kv.Command.{set, delete, invalid, parse_command}
use quaso.Kv.Store.{Storage, storage_get, value_reply, handle_client}
use quaso.Kv.Client.{
  Terminal, waiting, panicked, color_of, reset, grey, red, green, type_line, main_loop, main,
  handle_resp,
}
use quaso.Kv.Client.Sent.{HasQueued, LineFits, main_loop-HasQueued}
use quaso.Kv.Client.Wire.{Wire, IsWire, Peer, ValuesFit, serve_client, idle}
use quaso.Kv.Client.Acknowledged.{typed_write_acknowledged}

-- A wire for text in ASCII, on which all that was written is there for the next read.
abbrev ascii : ℕ → Char
ascii n = go (compare n 55296) refl
  where
    go : (o : Ordering) → compare n 55296 ≡ o → Char
    go Ordering.lt e = char n (rw e tt)
    go _ e = nul

abbrev text_of : List ℕ → String
text_of [] = ""
text_of (n ∷ ns) = String.◌∷◌ (ascii n) (text_of ns)

abbrev codes : String → List ℕ
codes String.[] = []
codes (String.◌∷◌ c s) = code c ∷ codes s

abbrev joined : List String → String
joined [] = ""
joined (s ∷ []) = s
joined (s ∷ ss) = s ++ joined ss

abbrev rest_of : String → String
rest_of text = slice text 64 (len text)

abbrev cut : ℕ → String → List (Option String)
cut zero text = []
cut (suc fuel) text =
    let more = cut fuel (rest_of text) in
    if leb (len text) 64 then some text ∷ [] else (some (slice text 0 64) ∷ more)

abbrev read_one : String → Option String × List ℕ
read_one text =
    if leb (len text) 64 then (some text, []) else (some (slice text 0 64), codes (rest_of text))

abbrev wire : Wire
wire = record {
  store_reads =
      λ left line. let text = text_of left ++ line in (cut (suc (len text / 64)) text, []);
  client_read = λ left replies gone. read_one (text_of left ++ joined replies);
}

wire-IsWire : IsWire wire
wire-IsWire = record {
  one_line = λ line nonempty short. rw (nil line, le→leb (len line) 64 short);
  one_reply = λ reply nonempty short. rw (nil reply, le→leb (len reply) 64 short);
}

abbrev new_terminal : Terminal Peer
new_terminal = record { server = idle [] 0; sent = []; printed = [] }

-- The map has one value.
abbrev held : Storage
held = ("k", "v") ∷ []

short_values : ValuesFit (λ n. held)
unfolding storage_get value_reply Map.get
short_values n key = elim (Bool-cases (str_eq "k" key)) [
  | inl e ↦ rw e (omega arith)
  | inr e ↦ rw e (omega arith)
]

abbrev lines : List (Option String)
lines = some "set k v" ∷ some "put k v" ∷ some "get k" ∷ some "delete k" ∷ some "exit" ∷ []

abbrev leading_peer : String → Peer → Option String × Peer
leading_peer = serve_client (λ n. held) (λ n. true) wire

abbrev following_peer : String → Peer → Option String × Peer
following_peer = serve_client (λ n. held) (λ n. false) wire

lines_fit : All LineFits lines
lines_fit = (omega arith, (omega arith, (omega arith, (omega arith, (omega arith, tt)))))

main_loop-HasQueued_example :
    HasQueued (λ n. true) lines (idle [] 0) (main_loop leading_peer lines new_terminal).1.server
main_loop-HasQueued_example =
    main_loop-HasQueued (λ n. held) (λ n. true) wire wire-IsWire short_values lines new_terminal
      lines_fit (inr (refl, refl))

-- Three of the five lines are sent, and two of them go into the queue.
queued : (main_loop leading_peer lines new_terminal).1.server.queue ≡ set "k" "v" ∷ delete "k" ∷ []
unfolding main_loop serve_client handle_client is_whitespace trim split handle_resp parse_command
    Map.get
queued = refl

-- A follower has nothing in its queue.
refused :
    (main following_peer true
      (some "WARN. Not Leader")
      (some "delete k" ∷ [])
      (idle [] 0)).1.printed
    ≡ record { color = red; text = "WARN. Not Leader" }
      ∷ record { color = red; text = "ERR. Not Leader" }
      ∷ []
unfolding main serve_client handle_client is_whitespace trim split handle_resp parse_command
refused = refl

typed_write_acknowledged_example : type_line leading_peer "delete k" new_terminal ≡ (
  waiting,
  record {
    server = idle (delete "k" ∷ []) 1;
    sent = "delete k" ∷ [];
    printed = record { color = green; text = "OK." } ∷ [];
  },
)
unfolding is_whitespace is_empty
typed_write_acknowledged_example =
    typed_write_acknowledged (λ n. held) (λ n. true) wire (delete "k") [] 0 [] [] wire-IsWire
      ((refl, tt), refl) tt (omega arith) refl

-- A line of 70 bytes: the value is queued without its end, which is handled as a command of its own.
long_line :
    (type_line leading_peer
      "set k vvvvvvvvvvvvvvvvvvvvvvvvvvvvvvvvvvvvvvvvvvvvvvvvvvvvvvvvvvvvvvvvvv"
      new_terminal).1.server.queue
    ≡ set "k" "vvvvvvvvvvvvvvvvvvvvvvvvvvvvvvvvvvvvvvvvvvvvvvvvvvvvvvvvvv" ∷ invalid ∷ []
unfolding type_line serve_client handle_client is_whitespace trim split handle_resp parse_command
long_line = refl

-- A set without a value panics the store's task, and the two reads find the end of the stream.
dropped :
    (main_loop leading_peer (some "set k" ∷ some "get k" ∷ []) new_terminal).1.printed
    ≡ record { color = reset; text = "" } ∷ record { color = reset; text = "" } ∷ []
unfolding main_loop serve_client handle_client is_whitespace trim split handle_resp parse_command
dropped = refl

no_more_lines : (main_loop leading_peer (none ∷ []) new_terminal).0 ≡ panicked
unfolding main_loop
no_more_lines = refl

-- The colour is that of the first of the words that an answer has, a value among them.
colors :
    (color_of "undefined" ≡ grey)
    × (color_of "\"OK\"" ≡ green)
    × (color_of "\"MERRY\"" ≡ red)
    × (color_of "\"v\"" ≡ reset)
unfolding color_of
colors = (refl, refl, refl, refl)
