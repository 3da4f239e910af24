-- ===== src/Kv/Store/Agree/Text.antt =====
-- Bytes for the operations of the store, for the tests.
use Prim.Native.Char.{Char, char, code, nul, IsScalar, IsLt}
use Prim.Native.Nat.{Ordering, compare}
use Prim.Native.String.{[] as empty, ◌∷◌ as cons}
use text.Mathlib.TextEquality.{Char-path}
use quaso.Raft.Client.{Bytes}
use quaso.Kv.Command.{Operation, set, get, delete, invalid}
use quaso.Prelude.{ℕ, zero, suc, ◌≡◌, refl, String, [], ◌∷◌}
use quaso.Raft.Broadcast.Sample.{Values}

-- The range of characters, by the three comparisons of `IsScalar`.
abbrev Above : Ordering → Ordering → Type 0
Above Ordering.lt q = IsLt q
Above Ordering.eq q = ⊥
Above Ordering.gt q = ⊥

abbrev InRange : Ordering → Ordering → Ordering → Type 0
InRange Ordering.lt p q = Unit
InRange Ordering.eq p q = Above p q
InRange Ordering.gt p q = Above p q

dec_less : (o : Ordering) → Dec (IsLt o)
dec_less Ordering.lt = yes tt
dec_less Ordering.eq = no (λ e. e)
dec_less Ordering.gt = no (λ e. e)

dec_above : (p q : Ordering) → Dec (Above p q)
dec_above Ordering.lt q = dec_less q
dec_above Ordering.eq q = no (λ e. e)
dec_above Ordering.gt q = no (λ e. e)

dec_in_range : (o p q : Ordering) → Dec (InRange o p q)
dec_in_range Ordering.lt p q = yes tt
dec_in_range Ordering.eq p q = dec_above p q
dec_in_range Ordering.gt p q = dec_above p q

dec_scalar : (n : ℕ) → Dec (IsScalar n)
dec_scalar n = dec_in_range (compare n 55296) (compare 57343 n) (compare n 1114112)

char_of : (n : ℕ) → Dec (IsScalar n) → Char
char_of n (yes p) = char n p
char_of n (no _) = nul

char_of-code : (c : Char) (d : Dec (IsScalar (code c))) → char_of (code c) d ≡ c
unfolding char_of
char_of-code (char n p) (yes q) = Char-path (char n q) (char n p) refl
char_of-code (char n p) (no h) = absurd (h p)

-- Each character after a 1, and a 0 at the end.
abbrev put_text : String → Bytes → Bytes
put_text empty bs = 0 ∷ bs
put_text (cons c s) bs = 1 ∷ code c ∷ put_text s bs

abbrev get_text : Bytes → String × Bytes
get_text (suc m ∷ n ∷ bs) =
    let rest = get_text bs in (cons (char_of n (dec_scalar n)) rest.0, rest.1)
get_text (zero ∷ bs) = (empty, bs)
get_text _ = (empty, [])

get_text-put_text : (s : String) (bs : Bytes) → get_text (put_text s bs) ≡ (s, bs)
get_text-put_text empty bs = refl
get_text-put_text (cons c s) bs =
    rw (get_text-put_text s bs, char_of-code c (dec_scalar (code c))) refl

pub put_operation : Operation → Bytes → Bytes
put_operation (set k v) bs = 0 ∷ put_text k (put_text v bs)
put_operation (get k) bs = 1 ∷ put_text k bs
put_operation (delete k) bs = 2 ∷ put_text k bs
put_operation invalid bs = 3 ∷ bs

pub get_operation : Bytes → Operation × Bytes
get_operation (zero ∷ bs) = let k = get_text bs in let v = get_text k.1 in (set k.0 v.0, v.1)
get_operation (suc zero ∷ bs) = let k = get_text bs in (get k.0, k.1)
get_operation (suc (suc zero) ∷ bs) = let k = get_text bs in (delete k.0, k.1)
get_operation (suc (suc (suc n)) ∷ bs) = (invalid, bs)
get_operation [] = (invalid, [])

pub get_operation-put_operation :
    (op : Operation) (bs : Bytes) → get_operation (put_operation op bs) ≡ (op, bs)
unfolding put_operation get_operation
get_operation-put_operation (set k v) bs =
    rw (get_text-put_text k (put_text v bs), get_text-put_text v bs) refl
get_operation-put_operation (get k) bs = rw (get_text-put_text k bs) refl
get_operation-put_operation (delete k) bs = rw (get_text-put_text k bs) refl
get_operation-put_operation invalid bs = refl

abbrev pub operations : Values Operation
operations = record { put = put_operation; get = get_operation; back = get_operation-put_operation }
