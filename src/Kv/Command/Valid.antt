-- ===== src/Kv/Command/Valid.antt =====
-- What `validate` lets through is an operation for `parse_command`.
use quaso.Prelude.{
  ◌≡◌, ◌≢◌, ◌⊎◌, inl, inr, sym, ap, ◌∙◌, String, some, List, [], ◌∷◌, arith, Option-cases,
  get_elem?,
}
use quaso.Prelude.Exec.{done}
use quaso.Text.{trim, split}
use quaso.Kv.Command.{invalid, parse_opr, check_words, operation_of, validate, parse_command}

abbrev IsOpr : String → Type 0
IsOpr o = (o ≡ "set") ⊎ ((o ≡ "get") ⊎ (o ≡ "delete"))

parse_opr-IsOpr : (opr o : String) → parse_opr opr ≡ some o → IsOpr o
unfolding parse_opr
parse_opr-IsOpr opr o h = ground arith

check_words-IsOpr :
    (ws : List String) (opr : String) (words : List String)
    → check_words ws ≡ some (opr, words)
    → IsOpr opr
unfolding check_words
check_words-IsOpr [] opr words h = cc
check_words-IsOpr (w ∷ []) opr words h = cc
check_words-IsOpr (w ∷ x ∷ ws) opr words h = elim (Option-cases (parse_opr w)) [
  | inl e ↦ absurd (cc (rw e at h))
  | inr (o, e) ↦ parse_opr-IsOpr w opr (e ∙ cc (rw e at h))
]

operation_of-valid :
    (opr : String) (words : List String)
    → IsOpr opr
    → operation_of (some (opr, words)) ≢ done invalid
unfolding operation_of
operation_of-valid opr words (inl e) h = elim (Option-cases (get_elem? words 1)) [
  | inl k ↦ absurd (cc (rw (e, k) at h))
  | inr (key, k) ↦ elim (Option-cases (get_elem? words 2)) [
    | inl v ↦ absurd (cc (rw (e, k, v) at h))
    | inr (value, v) ↦ absurd (cc (rw (e, k, v) at h))
  ]
]
operation_of-valid opr words (inr (inl e)) h = elim (Option-cases (get_elem? words 1)) [
  | inl k ↦ absurd (cc (rw (e, k) at h))
  | inr (key, k) ↦ absurd (cc (rw (e, k) at h))
]
operation_of-valid opr words (inr (inr e)) h = elim (Option-cases (get_elem? words 1)) [
  | inl k ↦ absurd (cc (rw (e, k) at h))
  | inr (key, k) ↦ absurd (cc (rw (e, k) at h))
]

-- A line that the client takes for a command is one for the store too, or panics it.
pub validate-parse_command :
    (s opr : String) (words : List String)
    → validate s ≡ some (opr, words)
    → parse_command s ≢ done invalid
unfolding parse_command validate
validate-parse_command s opr words h e =
    operation_of-valid opr words (check_words-IsOpr (split (trim s)) opr words h)
      (ap operation_of (sym h) ∙ e)
