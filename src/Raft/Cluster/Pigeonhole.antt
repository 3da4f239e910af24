-- ===== src/Raft/Cluster/Pigeonhole.antt =====
-- Two lists of numbers that are too long to be apart inside a third one have a number in common.
use native.Mathlib.Decide.{ℕ_discrete}
use quaso.Prelude.{
  IsDistinct, length-inside, In, In-append, In-append_left, ℕ, ◌+◌, ◌≤◌, ◌<◌, refl, ◌⊎◌, inl, inr,
  List, [], ◌∷◌, ◌++◌, arith, length, length-append,
}

abbrev pub IsApart : {A : Type 0} → List A → List A → Type 0
IsApart {A} xs ys = (v : A) → In v xs → ¬ In v ys

pub IsDistinct-left : {A : Type 0} (xs ys : List A) → IsDistinct (xs ++ ys) → IsDistinct xs
IsDistinct-left [] ys h = tt
IsDistinct-left (x ∷ xs) ys (out, h) =
    (λ i. out (In-append_left x xs ys i), IsDistinct-left xs ys h)

IsDistinct-append :
    {A : Type 0} (xs ys : List A)
    → IsDistinct xs
    → IsDistinct ys
    → IsApart xs ys
    → IsDistinct (xs ++ ys)
IsDistinct-append [] ys h k apart = k
IsDistinct-append (x ∷ xs) ys (out, h) k apart = (
  λ i. elim (In-append x xs ys i) [ inl j ↦ out j | inr j ↦ apart x (inl refl) j ],
  IsDistinct-append xs ys h k (λ v i. apart v (inr i)),
)

dec_in : (v : ℕ) (xs : List ℕ) → In v xs ⊎ ¬ In v xs
dec_in v [] = inr (λ h. h)
dec_in v (x ∷ xs) = elim (ℕ_discrete v x) [
  | yes e ↦ inl (inl e)
  | no differs ↦ elim (dec_in v xs) [
    | inl h ↦ inl (inr h)
    | inr out ↦ inr (λ h. elim h [ inl e ↦ differs e | inr i ↦ out i ])
  ]
]

common-or-IsApart : (xs ys : List ℕ) → ((v : ℕ) × In v xs × In v ys) ⊎ IsApart xs ys
common-or-IsApart [] ys = inr (λ v h. absurd h)
common-or-IsApart (x ∷ xs) ys = elim (dec_in x ys) [
  | inl here ↦ inl (x, inl refl, here)
  | inr not_here ↦ elim (common-or-IsApart xs ys) [
    | inl (v, i, j) ↦ inl (v, inr i, j)
    | inr apart ↦ inr (λ v h j. elim h [ inl e ↦ not_here (rw e at j) | inr i ↦ apart v i j ])
  ]
]

pub common :
    (xs ys ms : List ℕ)
    → IsDistinct xs
    → IsDistinct ys
    → ((v : ℕ) → In v xs → In v ms)
    → ((v : ℕ) → In v ys → In v ms)
    → length ms < length xs + length ys
    → (v : ℕ) × In v xs × In v ys
common xs ys ms h k inside inside' large = elim (common-or-IsApart xs ys) [
  | inl found ↦ found
  | inr apart ↦
      let short : length (xs ++ ys) ≤ length ms =
        length-inside (xs ++ ys) ms (IsDistinct-append xs ys h k apart)
          (λ v i. elim (In-append v xs ys i) [ inl j ↦ inside v j | inr j ↦ inside' v j ]) in
      absurd (omega (arith, short, length-append xs ys))
]
