-- ===== src/Kv/Store/Apply.antt =====
-- What the delivered entries make of the map.
use quaso.Prelude.{
  ◌≡◌, refl, ap, ◌∙◌, String, Option, none, some, List, [], ◌∷◌, arith, str_eq, if◌then◌else◌,
}
use quaso.HashMap.{get-insert, get-remove}
use quaso.Raft.Data.{LogEntry}
use quaso.Kv.Command.{Operation, set, get, delete, invalid}
use quaso.Kv.Store.{Storage, storage_get, apply, deliver_all}

-- What an operation writes at a key: `some none` is a deletion.
abbrev pub write_of : String → Operation → Option (Option String)
write_of k (set j v) = if str_eq j k then some (some v) else none
write_of k (delete j) = if str_eq j k then some none else none
write_of k (get j) = none
write_of k invalid = none

abbrev pub or_else {ℓ} : {A : Type ℓ} → Option A → A → A
or_else none b = b
or_else (some a) b = a

abbrev pub first_some {ℓ} : {A : Type ℓ} → Option A → Option A → Option A
first_some none o = o
first_some (some a) o = some a

-- The last write at a key.
abbrev pub last_write : String → List (LogEntry Operation) → Option (Option String)
last_write k [] = none
last_write k (m ∷ ms) = first_some (last_write k ms) (write_of k m.value)

apply-write :
    (k : String) (m : LogEntry Operation) (s : Storage)
    → storage_get k (apply m s) ≡ or_else (write_of k m.value) (storage_get k s)
unfolding apply storage_get
apply-write k m s = go m.value
  where
    go :
        (o : Operation)
        → storage_get k (apply (record m { value = o }) s)
          ≡ or_else (write_of k o) (storage_get k s)
    go (set j v) = ground (arith, get-insert j k v s)
    go (delete j) = ground (arith, get-remove j k s)
    go (get j) = refl
    go invalid = refl

or_else-first_some :
    (a b : Option (Option String)) (o : Option String)
    → or_else a (or_else b o) ≡ or_else (first_some a b) o
or_else-first_some none b o = refl
or_else-first_some (some a) b o = refl

deliver_all-nil : (k : String) (s : Storage) → storage_get k (deliver_all [] s) ≡ storage_get k s
unfolding deliver_all
deliver_all-nil k s = refl

-- Here `apply` stays shut.
deliver_all-cons :
    (k : String) (m : LogEntry Operation) (ms : List (LogEntry Operation)) (s : Storage)
    → storage_get k (deliver_all (m ∷ ms) s) ≡ storage_get k (deliver_all ms (apply m s))
unfolding deliver_all
deliver_all-cons k m ms s = refl

-- After any sequence of delivered entries, a key has the value of the last one that sets or
-- deletes it, and its old value if there is none.
pub deliver_all-last_write :
    (k : String) (ms : List (LogEntry Operation)) (s : Storage)
    → storage_get k (deliver_all ms s) ≡ or_else (last_write k ms) (storage_get k s)
deliver_all-last_write k [] s = deliver_all-nil k s
deliver_all-last_write k (m ∷ ms) s =
    deliver_all-cons k m ms s
    ∙ deliver_all-last_write k ms (apply m s)
    ∙ ap (or_else (last_write k ms)) (apply-write k m s)
    ∙ or_else-first_some (last_write k ms) (write_of k m.value) (storage_get k s)
