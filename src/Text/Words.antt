-- ===== src/Text/Words.antt =====
-- Words, which hold no white space, under `trim` and `split`.
use Prim.Native.Char.{Char, code}
use Prim.Native.String.{[], ◌∷◌}
use quaso.Prelude.{◌≡◌, refl, String, false, List, arith, ◌==◌, and_false}
use quaso.Text.{is_whitespace, is_empty, trim_end, trim, split}

abbrev pub append : String → String → String
append [] t = t
append (c ∷ s) t = c ∷ append s t

-- A text with no white space in it.
abbrev pub IsWord : String → Type 0
IsWord [] = Unit
IsWord (c ∷ s) = (is_whitespace c ≡ false) × IsWord s

-- Nothing is dropped from the end, and something is left.
pub record IsTrimmed (t : String) : Type 0 where
  pub same : trim_end t ≡ t
  pub more : is_empty t ≡ false

pub IsWord-trim_end : (w : String) → IsWord w → trim_end w ≡ w
unfolding trim_end
IsWord-trim_end [] h = refl
IsWord-trim_end (c ∷ s) h = rw (IsWord-trim_end s h.1, h.0, and_false)

pub IsTrimmed-append : (s t : String) → IsTrimmed t → IsTrimmed (append s t)
unfolding trim_end
IsTrimmed-append [] t h = h
IsTrimmed-append (c ∷ s) t h =
    let k : IsTrimmed (append s t) = IsTrimmed-append s t h in
    record { same = rw (k.same, k.more); more = refl }

not_space : (c : Char) → is_whitespace c ≡ false → (code c == 32) ≡ false
unfolding is_whitespace
not_space c h = ground arith

pub split-word : (w : String) → IsWord w → split w ≡ List.◌∷◌ w List.[]
unfolding split
split-word [] h = refl
split-word (c ∷ w) h = rw (not_space c h.0, split-word w h.1)

pub split-append :
    (w t : String) → IsWord w → split (append w (append " " t)) ≡ List.◌∷◌ w (split t)
unfolding split
split-append [] t h = refl
split-append (c ∷ w) t h = rw (not_space c h.0, split-append w t h.1)

-- A word, and more behind it.
pub trim-append :
    (w t : String) → IsWord w → is_empty w ≡ false → IsTrimmed t → trim (append w t) ≡ append w t
unfolding trim
trim-append [] t h more k = cc
trim-append (c ∷ w) t h more k = rw h.0 (IsTrimmed-append (c ∷ w) t k).same

pub word-IsTrimmed : (v : String) → IsWord v → is_empty v ≡ false → IsTrimmed v
word-IsTrimmed v h more = record { same = IsWord-trim_end v h; more = more }

pub trim-word : (w : String) → IsWord w → trim w ≡ w
unfolding trim
trim-word [] h = refl
trim-word (c ∷ w) h = rw h.0 (IsWord-trim_end (c ∷ w) h)
