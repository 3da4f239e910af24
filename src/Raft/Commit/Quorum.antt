-- ===== src/Raft/Commit/Quorum.antt =====
-- The frequencies are exact, so an index with a quorum is the only one, and it is the one chosen.
use mathlib.Core.List.{Mem, Perm, mem-cons, mem-cons_self, mem-cons_of_mem, not-mem-nil, Mem-prop}
use mathlib.Core.List.Perm
use mathlib.Core.Path.{fun_ext, subst}
use mathlib.Core.Option.{some-injective}
use mathlib.Core.HLevel.{×_prop}
use mathlib.Core.Logic.Or
use native.Mathlib.Nat.{ℕ_set}
use native.Mathlib.Bridge.{le_prop}
use native.Mathlib.Decide.{ℕ_discrete}
use quaso.Prelude.{
  ℕ, ◌+◌, ◌≤◌, ◌<◌, ◌≡◌, ◌≢◌, refl, sym, ap, ◌∙◌, true, false, some, List, [], ◌∷◌, arith, ltb, leb,
  ◌==◌, if◌then◌else◌, length, Bool-cases, inl, inr, ==_iff, le→leb, leb→le,
}
use quaso.Raft.Commit.Frequency.{bump, frequencies, often, max_from, max_by_count, best_of, count}

-- `m` holds each number once, with how often it occurs according to `f`.
abbrev IsFreq : List (ℕ × ℕ) → (ℕ → ℕ) → Type 0
IsFreq [] f = (k : ℕ) → f k ≡ 0
IsFreq ((v, n) ∷ m) f = (f v ≡ n) × (0 < n) × IsFreq m (λ k. if k == v then 0 else f k)

not_eq : (a b : ℕ) → ¬ (a ≡ b) → (a == b) ≡ false
not_eq a b h = ground arith

IsFreq-bump :
    (val : ℕ) (m : List (ℕ × ℕ)) (f : ℕ → ℕ)
    → IsFreq m f
    → IsFreq (bump val m) (λ k. if k == val then f k + 1 else f k)
unfolding bump
IsFreq-bump val [] f h = (ground (arith, h val), omega arith, λ k. ground (arith, h k))
IsFreq-bump val ((v, n) ∷ m) f h = elim (ℕ_discrete v val) [
  | yes same ↦
      rw ((==_iff v val).1 same)
        (ground arith, omega arith, subst (IsFreq m) (fun_ext (λ k. ground arith)) h.2)
  | no other ↦ rw (not_eq v val other) (
    ground arith,
    h.1,
    subst (IsFreq (bump val m)) (fun_ext (λ k. ground arith))
        (IsFreq-bump val m (λ k. if k == v then 0 else f k) h.2),
  )
]

IsFreq-frequencies :
    (vals : List ℕ) (m : List (ℕ × ℕ)) (f : ℕ → ℕ)
    → IsFreq m f
    → IsFreq (frequencies vals m) (λ k. f k + count k vals)
unfolding frequencies
IsFreq-frequencies [] m f h = subst (IsFreq m) (fun_ext (λ k. omega arith)) h
IsFreq-frequencies (val ∷ vals) m f h =
    subst (IsFreq (frequencies vals (bump val m))) (fun_ext (λ k. ground arith)) (
      IsFreq-frequencies vals (bump val m) (λ k. if k == val then f k + 1 else f k)
        (IsFreq-bump val m f h))

IsFreq-mem :
    (m : List (ℕ × ℕ)) (f : ℕ → ℕ) (e : ℕ × ℕ) → IsFreq m f → Mem e m → (e.1 ≡ f e.0) × (0 < e.1)
IsFreq-mem [] f e h i = absurd (not-mem-nil i)
IsFreq-mem ((v, n) ∷ m) f e h i =
    Or.elim (×_prop (ℕ_set _ _) le_prop) (mem-cons.0 i) (λ here. rw here (sym h.0, h.1))
      (λ there. ground (arith, IsFreq-mem m (λ k. if k == v then 0 else f k) e h.2 there))

IsFreq-mem_of_pos : (m : List (ℕ × ℕ)) (f : ℕ → ℕ) (k : ℕ) → IsFreq m f → 0 < f k → Mem (k, f k) m
IsFreq-mem_of_pos [] f k h p = absurd (omega (arith, h k))
IsFreq-mem_of_pos ((v, n) ∷ m) f k h p = elim (ℕ_discrete k v) [
  | yes same ↦ rw (same, h.0) mem-cons_self
  | no other ↦
      mem-cons_of_mem (v, n)
        (rw (not_eq k v other) at
          (IsFreq-mem_of_pos m (λ j. if j == v then 0 else f j) k h.2 (rw (not_eq k v other) p)))
]

frequencies-IsFreq : (vals : List ℕ) → IsFreq (frequencies vals []) (λ k. count k vals)
frequencies-IsFreq vals =
    subst (IsFreq (frequencies vals [])) (fun_ext (λ k. omega arith))
      (IsFreq-frequencies vals [] (λ k. 0) (λ k. refl))

frequencies-mem : (vals : List ℕ) (e : ℕ × ℕ) → Mem e (frequencies vals []) → e.1 ≡ count e.0 vals
frequencies-mem vals e i =
    (IsFreq-mem (frequencies vals []) (λ k. count k vals) e (frequencies-IsFreq vals) i).0

often-mem : (q : ℕ) (m : List (ℕ × ℕ)) (e : ℕ × ℕ) → Mem e (often q m) → Mem e m × (q ≤ e.1)
unfolding often
often-mem q [] e i = absurd (not-mem-nil i)
often-mem q (x ∷ m) e i = elim (Bool-cases (leb q x.1)) [
  | inl kept ↦
      Or.elim (×_prop Mem-prop le_prop) (mem-cons.0 (rw kept at i))
        (λ here. rw here (mem-cons_self, leb→le q x.1 kept))
        (λ there. let (a, b) = often-mem q m e there in (mem-cons_of_mem x a, b))
  | inr dropped ↦ let (a, b) = often-mem q m e (rw dropped at i) in (mem-cons_of_mem x a, b)
]

often-mem_of_le : (q : ℕ) (m : List (ℕ × ℕ)) (e : ℕ × ℕ) → Mem e m → q ≤ e.1 → Mem e (often q m)
unfolding often
often-mem_of_le q [] e i h = absurd (not-mem-nil i)
often-mem_of_le q (x ∷ m) e i h =
    Or.elim Mem-prop (mem-cons.0 i)
      (λ here.
        let kept : leb q x.1 ≡ true = le→leb q x.1 (rw (← here) h) in rw (kept, here) mem-cons_self)
      (λ there. elim (Bool-cases (leb q x.1)) [
        | inl kept ↦ rw kept (mem-cons_of_mem x (often-mem_of_le q m e there h))
        | inr dropped ↦ rw dropped (often-mem_of_le q m e there h)
      ])

max_from-mem : (best : ℕ × ℕ) (m : List (ℕ × ℕ)) → Mem (max_from best m) (best ∷ m)
unfolding max_from
max_from-mem best [] = mem-cons_self
max_from-mem best (e ∷ m) = elim (Bool-cases (ltb e.1 best.1)) [
  | inl stays ↦ rw stays (
      Or.elim Mem-prop (mem-cons.0 (max_from-mem best m)) (λ here. rw here mem-cons_self)
        (λ there. mem-cons_of_mem best (mem-cons_of_mem e there)))
  | inr goes ↦ rw goes (mem-cons_of_mem best (max_from-mem e m))
]

max_by_count-mem : (m : List (ℕ × ℕ)) {e : ℕ × ℕ} → max_by_count m ≡ some e → Mem e m
unfolding max_by_count
max_by_count-mem [] h = cc
max_by_count-mem (x ∷ m) h = subst (λ y. Mem y (x ∷ m)) (some-injective _ _ h) (max_from-mem x m)

max_by_count-some :
    (m : List (ℕ × ℕ)) {e : ℕ × ℕ} → Mem e m → (x : ℕ × ℕ) × (max_by_count m ≡ some x)
unfolding max_by_count
max_by_count-some [] i = absurd (not-mem-nil i)
max_by_count-some (x ∷ m) i = (max_from x m, refl)

count-add-le : (a b : ℕ) (vals : List ℕ) → a ≢ b → count a vals + count b vals ≤ length vals
count-add-le a b [] h = omega arith
count-add-le a b (x ∷ vals) h = ground (arith, count-add-le a b vals h)

pair_path : (e : ℕ × ℕ) (a b : ℕ) → e.0 ≡ a → e.1 ≡ b → e ≡ (a, b)
pair_path e a b p q = λ i. (p i, q i)

best_of-some :
    (m : List (ℕ × ℕ)) (q : ℕ) {e : ℕ × ℕ}
    → Mem e m
    → q ≤ e.1
    → (x : ℕ × ℕ) × (best_of q m ≡ some x)
unfolding best_of
best_of-some m q {e} i h = max_by_count-some (often q m) (often-mem_of_le q m e i h)

-- `order` iterates over each map in some order.
abbrev pub IsOrder : (List (ℕ × ℕ) → List (ℕ × ℕ)) → Type 0
IsOrder order = (m : List (ℕ × ℕ)) → Perm (order m) m

module _ (order : List (ℕ × ℕ) → List (ℕ × ℕ)) (is_order : IsOrder order) (q : ℕ)
    (vals : List ℕ) where
  -- What is chosen occurs often enough, as often as is said.
  pub best_of_sound :
      {e : ℕ × ℕ}
      → best_of q (order (frequencies vals [])) ≡ some e
      → (e.1 ≡ count e.0 vals) × (q ≤ e.1)
  unfolding best_of
  best_of_sound {e} h =
      let m : List (ℕ × ℕ) = frequencies vals [] in
      let (i, often_enough) = often-mem q (order m) e (max_by_count-mem (often q (order m)) h) in
      (frequencies-mem vals e ((Perm.mem_iff (is_order m)).0 i), often_enough)

  -- A number with a quorum is chosen, in whatever order the map iterates.
  pub best_of_quorum :
      (k : ℕ)
      → 0 < q
      → q ≤ count k vals
      → length vals < q + q
      → best_of q (order (frequencies vals [])) ≡ some (k, count k vals)
  best_of_quorum k pos h few =
      let m : List (ℕ × ℕ) = frequencies vals [] in
      let i : Mem (k, count k vals) m =
        IsFreq-mem_of_pos m (λ j. count j vals) k (frequencies-IsFreq vals) (omega arith) in
      let (e, chosen) = best_of-some (order m) q ((Perm.mem_iff (is_order m)).1 i) h in
      let (exact, often_enough) = best_of_sound {e = e} chosen in
      elim (ℕ_discrete e.0 k) [
        | yes same ↦
            chosen
            ∙ ap some (pair_path e k (count k vals) same (exact ∙ ap (λ j. count j vals) same))
        | no other ↦ absurd (omega (arith, count-add-le e.0 k vals other))
      ]
