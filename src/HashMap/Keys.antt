-- ===== src/HashMap/Keys.antt =====
-- The keys of a map, and one value put in for each of a list of keys.
use quaso.Prelude.{
  suc, ◌≡◌, ◌≢◌, refl, sym, ap, ◌⊎◌, inl, inr, String, true, false, some, List, [], ◌∷◌, map,
  str_eq, str_eq_iff, length, All, Bool-cases, In, IsDistinct,
}
use mathlib.Core.Option.{some-injective}
use quaso.HashMap as Map
use quaso.HashMap.{HashMap, get-insert}

pub str_eq_refl : (k : String) → str_eq k k ≡ true
str_eq_refl k = (str_eq_iff k k).1 refl

pub str_eq-ne : (k j : String) → k ≢ j → str_eq k j ≡ false
str_eq-ne k j h = elim (Bool-cases (str_eq k j)) [
  | inl e ↦ absurd (h ((str_eq_iff k j).0 e))
  | inr e ↦ e
]

module _ {ℓ} {V : Type ℓ} where
  abbrev pub keys : HashMap V → List String
  keys m = map (λ e. e.0) m

  pub get-insert_self : (k : String) (v : V) (m : HashMap V) → Map.get k (Map.insert k v m) ≡ some v
  get-insert_self k v m = rw (get-insert k k v m, str_eq_refl k)

  pub get-insert_other :
      (k j : String) (v : V) (m : HashMap V) → k ≢ j → Map.get j (Map.insert k v m) ≡ Map.get j m
  get-insert_other k j v m h = rw (get-insert k j v m, str_eq-ne k j h)

  pub get-insert_old :
      (k j : String) (v : V) (m : HashMap V)
      → Map.get j m ≡ some v
      → Map.get j (Map.insert k v m) ≡ some v
  get-insert_old k j v m h = elim (Bool-cases (str_eq k j)) [
    | inl same ↦ rw (get-insert k j v m, same)
    | inr other ↦ rw (get-insert k j v m, other) h
  ]

  unfoldable pub insert_all : List String → V → HashMap V → HashMap V
  insert_all [] v m = m
  insert_all (k ∷ ks) v m = insert_all ks v (Map.insert k v m)

  -- What is put in last stays, and the value is the same for all.
  pub get-insert_all_old :
      (ks : List String) (j : String) (v : V) (m : HashMap V)
      → Map.get j m ≡ some v
      → Map.get j (insert_all ks v m) ≡ some v
  unfolding insert_all
  get-insert_all_old [] j v m h = h
  get-insert_all_old (k ∷ ks) j v m h =
      get-insert_all_old ks j v (Map.insert k v m) (get-insert_old k j v m h)

  pub get-insert_all :
      (ks : List String) (j : String) (v : V) (m : HashMap V)
      → In j ks
      → Map.get j (insert_all ks v m) ≡ some v
  unfolding insert_all
  get-insert_all [] j v m i = absurd i
  get-insert_all (k ∷ ks) j v m (inl e) =
      get-insert_all_old ks j v (Map.insert k v m) (rw e (get-insert_self k v m))
  get-insert_all (k ∷ ks) j v m (inr i) = get-insert_all ks j v (Map.insert k v m) i

  -- A key of the map after an insertion is the new one or an old one.
  pub keys-insert :
      (k j : String) (v : V) (m : HashMap V)
      → In j (keys (Map.insert k v m))
      → (j ≡ k) ⊎ In j (keys m)
  unfolding Map.insert
  keys-insert k j v [] (inl e) = inl e
  keys-insert k j v [] (inr i) = absurd i
  keys-insert k j v ((i, w) ∷ m) h = elim (Bool-cases (str_eq i k)) [
    | inl same ↦ elim (rw same at h) [ inl e ↦ inl e | inr old ↦ inr (inr old) ]
    | inr other ↦ elim (rw other at h) [
      | inl e ↦ inr (inl e)
      | inr more ↦ elim (keys-insert k j v m more) [ inl e ↦ inl e | inr old ↦ inr (inr old) ]
    ]
  ]

  pub insert-IsDistinct :
      (k : String) (v : V) (m : HashMap V)
      → IsDistinct (keys m)
      → IsDistinct (keys (Map.insert k v m))
  unfolding Map.insert
  insert-IsDistinct k v [] h = (λ i. i, tt)
  insert-IsDistinct k v ((i, w) ∷ m) (out, h) = elim (Bool-cases (str_eq i k)) [
    | inl same ↦ rw same ((λ (x : In k (keys m)). out (rw ((str_eq_iff i k).0 same) x), h))
    | inr other ↦ rw other (
      λ x. elim (keys-insert k i v m x) [
        | inl e ↦ absurd (cc (rw (e, str_eq_refl k) at other))
        | inr old ↦ out old
      ],
      insert-IsDistinct k v m h,
    )
  ]

  pub insert_all-IsDistinct :
      (ks : List String) (v : V) (m : HashMap V)
      → IsDistinct (keys m)
      → IsDistinct (keys (insert_all ks v m))
  unfolding insert_all
  insert_all-IsDistinct [] v m h = h
  insert_all-IsDistinct (k ∷ ks) v m h =
      insert_all-IsDistinct ks v (Map.insert k v m) (insert-IsDistinct k v m h)

  pub keys-insert_all :
      (ks : List String) (j : String) (v : V) (m : HashMap V)
      → In j (keys (insert_all ks v m))
      → In j ks ⊎ In j (keys m)
  unfolding insert_all
  keys-insert_all [] j v m h = inr h
  keys-insert_all (k ∷ ks) j v m h = elim (keys-insert_all ks j v (Map.insert k v m) h) [
    | inl i ↦ inl (inr i)
    | inr i ↦ elim (keys-insert k j v m i) [ inl e ↦ inl (inl e) | inr old ↦ inr old ]
  ]

  pub get-keys : (k : String) (v : V) (m : HashMap V) → Map.get k m ≡ some v → In k (keys m)
  unfolding Map.get
  get-keys k v [] h = cc
  get-keys k v ((i, w) ∷ m) h = elim (Bool-cases (str_eq i k)) [
    | inl same ↦ inl (sym ((str_eq_iff i k).0 same))
    | inr other ↦ inr (get-keys k v m (rw other at h))
  ]

  pub length-values : (m : HashMap V) → length (Map.values m) ≡ length (keys m)
  unfolding Map.values
  length-values [] = refl
  length-values (e ∷ m) = ap suc (length-values m)

  -- With one value at every key, there is no other value.
  pub values-same :
      (v : V) (m : HashMap V)
      → IsDistinct (keys m)
      → ((k : String) → In k (keys m) → Map.get k m ≡ some v)
      → All (λ w. w ≡ v) (Map.values m)
  unfolding Map.values Map.get
  values-same v [] h same = tt
  values-same v ((k, u) ∷ m) (out, h) same =
      let at : some u ≡ some v = (rw (str_eq_refl k) at (same k (inl refl))) in
      (
        some-injective u v at,
        values-same v m h
            (λ j here. (rw (str_eq-ne k j (λ e. out (rw e here))) at (same j (inr here)))),
      )
