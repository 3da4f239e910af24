-- ===== src/Prelude/Distinct.antt =====
-- Lists without repetitions: they are no longer than a list that has all their elements.
use Prim.Native.Nat.{suc, ◌≤◌}
use mathlib.Core.Path.{◌≡◌, refl, sym, ◌∙◌}
use mathlib.Core.Logic.{◌≢◌, inl, inr}
use mathlib.Core.List.{List, [], ◌∷◌}
use native.Mathlib.Omega.{arith}
use quaso.Prelude.Lists.{length}
use quaso.Prelude.Members.{In}

abbrev pub IsDistinct : {A : Type 0} → List A → Type 0
IsDistinct [] = Unit
IsDistinct (x ∷ xs) = ¬ In x xs × IsDistinct xs

-- The list without an element of it.
without : {A : Type 0} (v : A) (ms : List A) → In v ms → List A
without v [] h = absurd h
without v (m ∷ ms) (inl e) = ms
without v (m ∷ ms) (inr h) = m ∷ without v ms h

length-without :
    {A : Type 0} (v : A) (ms : List A) (h : In v ms) → suc (length (without v ms h)) ≡ length ms
unfolding without
length-without v [] h = absurd h
length-without v (m ∷ ms) (inl e) = refl
length-without v (m ∷ ms) (inr h) = omega (arith, length-without v ms h)

In-without :
    {A : Type 0} (v w : A) (ms : List A) (h : In v ms) → w ≢ v → In w ms → In w (without v ms h)
unfolding without
In-without v w [] h differs i = absurd h
In-without v w (m ∷ ms) (inl e) differs (inl e') = absurd (differs (e' ∙ sym e))
In-without v w (m ∷ ms) (inl e) differs (inr i) = i
In-without v w (m ∷ ms) (inr h) differs (inl e') = inl e'
In-without v w (m ∷ ms) (inr h) differs (inr i) = inr (In-without v w ms h differs i)

pub length-inside :
    {A : Type 0} (xs ms : List A)
    → IsDistinct xs
    → ((v : A) → In v xs → In v ms)
    → length xs ≤ length ms
length-inside [] ms h inside = omega arith
length-inside (x ∷ xs) ms (out, h) inside =
    let i = inside x (inl refl) in
    let shorter : length xs ≤ length (without x ms i) =
      length-inside xs (without x ms i) h
        (λ v j. In-without x v ms i (λ e. out (rw e at j)) (inside v (inr j))) in
    omega (arith, shorter, length-without x ms i)
