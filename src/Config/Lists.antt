-- ===== src/Config/Lists.antt =====
-- An array of strings is read as it stands, and nothing else is read as a list.
use mathlib.Core.Path.{subst}
use mathlib.Core.List.{append_assoc, append-nil}
use quaso.Prelude.{◌≡◌, ◌↔◌, refl, sym, ap, ◌∙◌, String, List, [], ◌∷◌, ◌++◌}
use quaso.Config.{
  Parsed, ok, err, panic, View, null, hash, string, integer, array, other, Yaml, string_of,
  array_of, ◌>>=◌, push_strings, yaml_to_vec_string,
}

module _ {A B : Type 0} where
  -- A chain that ends well had each step end well.
  >>=-ok :
      (p : Parsed A) (f : A → Parsed B) (b : B)
      → (p >>= f) ≡ ok b
      → (a : A) × (p ≡ ok a) × (f a ≡ ok b)
  >>=-ok (ok a) f b h = (a, refl, h)
  >>=-ok (err e) f b h = cc
  >>=-ok panic f b h = cc

module _ {Y : Type 0} (yaml : Yaml Y) where
  abbrev pub AreStrings : List Y → List String → Type 0
  AreStrings [] [] = Unit
  AreStrings [] (s ∷ ss) = ⊥
  AreStrings (y ∷ ys) [] = ⊥
  AreStrings (y ∷ ys) (s ∷ ss) = (yaml.view y ≡ string s) × AreStrings ys ss

  push_strings-AreStrings :
      (ret : List String) (ys : List Y) (ss : List String)
      → AreStrings ys ss
      → push_strings yaml ret ys ≡ ok (ret ++ ss)
  unfolding push_strings
  push_strings-AreStrings ret [] [] h = ap ok (sym (append-nil ret))
  push_strings-AreStrings ret [] (s ∷ ss) h = absurd h
  push_strings-AreStrings ret (y ∷ ys) [] h = absurd h
  push_strings-AreStrings ret (y ∷ ys) (s ∷ ss) h =
      rw h.0
        (push_strings-AreStrings (ret ++ s ∷ []) ys ss h.1 ∙ ap ok (append_assoc ret (s ∷ []) ss))

  string_of-ok : (v : View Y) (s : String) → string_of v ≡ ok s → v ≡ string s
  string_of-ok (string s') s h = cc
  string_of-ok null s h = cc
  string_of-ok (integer i) s h = cc
  string_of-ok (hash m) s h = cc
  string_of-ok (array ys) s h = cc
  string_of-ok other s h = cc

  array_of-ok : (v : View Y) (ys : List Y) → array_of v ≡ ok ys → v ≡ array ys
  array_of-ok (array ys') ys h = cc
  array_of-ok null ys h = cc
  array_of-ok (integer i) ys h = cc
  array_of-ok (hash m) ys h = cc
  array_of-ok (string s) ys h = cc
  array_of-ok other ys h = cc

  AreStrings-push_strings :
      (ret : List String) (ys : List Y) (l : List String)
      → push_strings yaml ret ys ≡ ok l
      → (ss : List String) × AreStrings ys ss × (l ≡ ret ++ ss)
  unfolding push_strings
  AreStrings-push_strings ret [] l h = ([], tt, cc (append-nil ret))
  AreStrings-push_strings ret (y ∷ ys) l h =
      let (s, of, rest) = >>=-ok (string_of (yaml.view y)) _ l h in
      let (ss, are, split) = AreStrings-push_strings (ret ++ s ∷ []) ys l rest in
      (s ∷ ss, (string_of-ok (yaml.view y) s of, are), split ∙ append_assoc ret (s ∷ []) ss)

  pub yaml_to_vec_string_iff :
      (y : Y) (ss : List String)
      → (yaml_to_vec_string yaml y ≡ ok ss)
        ↔ ((ys : List Y) × (yaml.view y ≡ array ys) × AreStrings ys ss)
  unfolding yaml_to_vec_string
  yaml_to_vec_string_iff y ss = (
    λ h.
        let (ys, of, rest) = >>=-ok (array_of (yaml.view y)) _ ss h in
        let (ss', are, split) = AreStrings-push_strings [] ys ss rest in
        (ys, array_of-ok (yaml.view y) ys of, subst (AreStrings ys) (sym split) are),
    λ h. rw h.1 (push_strings-AreStrings [] h.0 ss h.2),
  )
