-- ===== src/Prelude/Members.antt =====
-- The elements of a list: what all of them have, and where one stands.
use mathlib.Core.Path.{◌≡◌, refl}
use mathlib.Core.Logic.{◌⊎◌, inl, inr}
use mathlib.Core.List.{List, [], ◌∷◌, ◌++◌}

abbrev pub All {ℓ κ} : {A : Type ℓ} → (A → Type κ) → List A → Type κ
All P [] = Unit
All P (x ∷ xs) = P x × All P xs

pub All-map {ℓ κ μ} :
    {A : Type ℓ} {P : A → Type κ} {Q : A → Type μ} (f : (x : A) → P x → Q x) (xs : List A)
    → All P xs
    → All Q xs
All-map f [] h = tt
All-map f (x ∷ xs) (h, hs) = (f x h, All-map f xs hs)

pub All-append {ℓ κ} :
    {A : Type ℓ} (P : A → Type κ) (xs ys : List A) → All P xs → All P ys → All P (xs ++ ys)
All-append P [] ys hs ks = ks
All-append P (x ∷ xs) ys (h, hs) ks = (h, All-append P xs ys hs ks)

-- Where the element stands, and not only that it does.
abbrev pub In : {A : Type 0} → A → List A → Type 0
In v [] = ⊥
In v (x ∷ xs) = (v ≡ x) ⊎ In v xs

pub In-append : {A : Type 0} (v : A) (xs ys : List A) → In v (xs ++ ys) → In v xs ⊎ In v ys
In-append v [] ys h = inr h
In-append v (x ∷ xs) ys (inl e) = inl (inl e)
In-append v (x ∷ xs) ys (inr h) = elim (In-append v xs ys h) [ inl i ↦ inl (inr i) | inr i ↦ inr i ]

pub In-append_left : {A : Type 0} (v : A) (xs ys : List A) → In v xs → In v (xs ++ ys)
In-append_left v [] ys h = absurd h
In-append_left v (x ∷ xs) ys (inl e) = inl e
In-append_left v (x ∷ xs) ys (inr h) = inr (In-append_left v xs ys h)

pub In-append_right : {A : Type 0} (v : A) (xs ys : List A) → In v ys → In v (xs ++ ys)
In-append_right v [] ys h = h
In-append_right v (x ∷ xs) ys h = inr (In-append_right v xs ys h)

pub All-In : {A : Type 0} (P : A → Type 0) (v : A) (xs : List A) → All P xs → In v xs → P v
All-In P v [] h i = absurd i
All-In P v (x ∷ xs) h (inl e) = rw e h.0
All-In P v (x ∷ xs) h (inr i) = All-In P v xs h.1 i

pub In-All : {A : Type 0} (P : A → Type 0) (xs : List A) → ((v : A) → In v xs → P v) → All P xs
In-All P [] h = tt
In-All P (x ∷ xs) h = (h x (inl refl), In-All P xs (λ v i. h v (inr i)))
