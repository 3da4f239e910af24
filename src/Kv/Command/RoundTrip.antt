-- ===== src/Kv/Command/RoundTrip.antt =====
-- What is typed for an operation is read back as it.
use quaso.Prelude.{◌≡◌, refl, String, false, List}
use quaso.Prelude.Exec.{done, panic}
use quaso.Text.{is_whitespace, is_empty, trim, split}
use quaso.Text.Words.{
  append, IsWord, IsTrimmed, IsTrimmed-append, word-IsTrimmed, trim-append, split-append,
  split-word,
}
use quaso.Kv.Command.{Operation, set, get, delete, invalid, parse_command}

set-IsWord : IsWord "set"
unfolding is_whitespace
set-IsWord = (refl, (refl, (refl, tt)))

get-IsWord : IsWord "get"
unfolding is_whitespace
get-IsWord = (refl, (refl, (refl, tt)))

delete-IsWord : IsWord "delete"
unfolding is_whitespace
delete-IsWord = (refl, (refl, (refl, (refl, (refl, (refl, tt))))))

-- The words of a command with one argument.
one_word :
    (opr k : String)
    → IsWord opr
    → is_empty opr ≡ false
    → IsWord k
    → is_empty k ≡ false
    → split (trim (append opr (append " " k))) ≡ List.◌∷◌ opr (List.◌∷◌ k List.[])
one_word opr k opr_word opr_more key_word key_more = rw (
  trim-append opr (append " " k) opr_word opr_more
      (IsTrimmed-append " " k (word-IsTrimmed k key_word key_more)),
  split-append opr k opr_word,
  split-word k key_word,
)

-- The words of a command with two.
two_words :
    (opr k v : String)
    → IsWord opr
    → is_empty opr ≡ false
    → IsWord k
    → IsWord v
    → is_empty v ≡ false
    → split (trim (append opr (append " " (append k (append " " v)))))
      ≡ List.◌∷◌ opr (List.◌∷◌ k (List.◌∷◌ v List.[]))
two_words opr k v opr_word opr_more key_word value_word value_more =
    let tail : String = append k (append " " v) in
    let end : IsTrimmed tail =
      IsTrimmed-append k (append " " v)
        (IsTrimmed-append " " v (word-IsTrimmed v value_word value_more)) in
    rw (
      trim-append opr (append " " tail) opr_word opr_more (IsTrimmed-append " " tail end),
      split-append opr tail opr_word,
      split-append k v key_word,
      split-word v value_word,
    )

module _ (k : String) (key_word : IsWord k) where
  -- A line `set`, key and value, with one space between, is parsed as that operation, if the
  -- key and the value hold no white space and the value is not empty.
  set_round_trip :
      (v : String)
      → IsWord v
      → is_empty v ≡ false
      → parse_command (append "set" (append " " (append k (append " " v)))) ≡ done (set k v)
  unfolding parse_command is_empty is_whitespace
  set_round_trip v value_word value_more =
      rw (two_words "set" k v set-IsWord refl key_word value_word value_more)

  -- A line of `set` and a key that is not empty and holds no white space panics the parser.
  pub set_panics : is_empty k ≡ false → parse_command (append "set" (append " " k)) ≡ panic
  unfolding parse_command is_empty is_whitespace
  set_panics more = rw (one_word "set" k set-IsWord refl key_word more)

  -- A line of `get` and a key is parsed as that operation, if the key is not empty and holds no
  -- white space.
  get_round_trip : is_empty k ≡ false → parse_command (append "get" (append " " k)) ≡ done (get k)
  unfolding parse_command is_empty is_whitespace
  get_round_trip more = rw (one_word "get" k get-IsWord refl key_word more)

  -- A line of `delete` and a key is parsed as that operation, if the key is not empty and holds
  -- no white space.
  delete_round_trip :
      is_empty k ≡ false → parse_command (append "delete" (append " " k)) ≡ done (delete k)
  unfolding parse_command is_empty is_whitespace
  delete_round_trip more = rw (one_word "delete" k delete-IsWord refl key_word more)

-- What a client types for an operation.
abbrev pub typed : Operation → String
typed (set k v) = append "set" (append " " (append k (append " " v)))
typed (get k) = append "get" (append " " k)
typed (delete k) = append "delete" (append " " k)
typed invalid = ""

-- Keys and values that can be typed.
abbrev pub IsTypable : Operation → Type 0
IsTypable (set k v) = IsWord k × IsWord v × (is_empty v ≡ false)
IsTypable (get k) = IsWord k × (is_empty k ≡ false)
IsTypable (delete k) = IsWord k × (is_empty k ≡ false)
IsTypable invalid = ⊥

-- A line of an operation's name, its key and, for `set`, its value, with one space between, is
-- parsed as that operation. Key and value hold no white space, and the last of them is not
-- empty.
pub parse_command-typed : (op : Operation) → IsTypable op → parse_command (typed op) ≡ done op
parse_command-typed (set k v) h = set_round_trip k h.0 v h.1 h.2
parse_command-typed (get k) h = get_round_trip k h.0 h.1
parse_command-typed (delete k) h = delete_round_trip k h.0 h.1
parse_command-typed invalid h = absurd h
