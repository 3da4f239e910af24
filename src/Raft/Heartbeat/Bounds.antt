-- ===== src/Raft/Heartbeat/Bounds.antt =====
-- When the request for a follower can be built, and that the leader's indices stay where it can.
use native.Mathlib.Decide.{dec_lt}
use quaso.Prelude.{
  ℕ, zero, suc, ◌+◌, ◌-◌, ◌≤◌, ◌<◌, ◌≡◌, refl, ap, String, Bool, true, false, Option, none, some,
  List, arith, ltb, if◌then◌else◌, length, drop, usize_mod, usize_add, usize_add-eq, get_elem?-some,
  lt→ltb, le→ltb, le→leb, str_eq, Bool-cases, Option-cases, inl, inr,
}
use quaso.Prelude.Exec.{Outcome, done, map_done}
use mathlib.Core.Option.{some-injective}
use quaso.HashMap as Map
use quaso.HashMap.{HashMap, get-insert}
use quaso.Raft.Data.{NodeId, LogIndex, LogEntry, State, VolatileState, AppendEntriesRequest}
use quaso.Raft.Heartbeat.{Tail, no_tail, tail_from, append_request, back_off, record_answer}

map_done-done {ℓ κ} :
    {A : Type ℓ} {B : Type κ} (f : A → B) {o : Outcome A} {a : A}
    → o ≡ done a
    → (b : B) × (map_done f o ≡ done b)
map_done-done f {o} {a} e = (f a, ap (map_done f) e)

pub insert-fits :
    (k c : String) (v : LogIndex) (m : HashMap LogIndex) (bound : ℕ)
    → v ≤ bound
    → ((i : LogIndex) → Map.get c m ≡ some i → i ≤ bound)
    → (i : LogIndex) → Map.get c (Map.insert k v m) ≡ some i
    → i ≤ bound
insert-fits k c v m bound small fits i h = elim (Bool-cases (str_eq k c)) [
  | inl same ↦
      let e : some v ≡ some i = (rw (get-insert k c v m, same) at h) in
      omega (arith, some-injective v i e)
  | inr other ↦ fits i (rw (get-insert k c v m, other) at h)
]

back_off-fits :
    (conn c : String) (o : Option LogIndex) (v : VolatileState) (bound : ℕ)
    → ((i : LogIndex) → o ≡ some i → i ≤ bound)
    → ((i : LogIndex) → Map.get c v.next_index ≡ some i → i ≤ bound)
    → (i : LogIndex) → Map.get c (back_off conn o v).next_index ≡ some i
    → i ≤ bound
unfolding back_off
back_off-fits conn c none v bound here fits i h = fits i h
back_off-fits conn c (some j) v bound here fits i h = elim (Bool-cases (ltb 1 j)) [
  | inl more ↦
      insert-fits conn c (j - 1) v.next_index bound (let f = here j refl in omega arith) fits i
        (rw more at h)
  | inr one ↦ fits i (rw one at h)
]

module _ {T : Type 0} where
  tail_from-within :
      (log : List (LogEntry T)) (i : LogIndex)
      → i ≤ length log + 1
      → 0 < length log
      → (tail : Tail T) × (tail_from log (some i) ≡ done tail)
  unfolding tail_from
  tail_from-within log zero h nonempty = (_, refl)
  tail_from-within log (suc zero) h nonempty = (_, refl)
  tail_from-within log (suc (suc k)) h nonempty =
      let (e, at) = get_elem?-some log k (omega arith) in
      let one : suc (suc k) - 1 ≡ suc k = omega arith in
      let two : suc k - 1 ≡ k = omega arith in
      (
        record { prev_log_index = suc k; prev_log_term = e.term; entries = drop (suc k) log },
        rw (
          le→leb 2 (suc (suc k)) (omega arith),
          one,
          two,
          at,
          le→leb (suc k) (length log) (omega arith),
        ),
      )

  -- The next index of a follower, where it has one, is at most one past the end of the log.
  abbrev pub NextFits : String → State T → Type 0
  NextFits conn s = (i : LogIndex) → Map.get conn s.next_index ≡ some i → i ≤ length s.log + 1

  tail_returns :
      (conn : String) (s : State T)
      → NextFits conn s
      → (tail : Tail T) × ((if ltb 0 (length s.log)
            then tail_from s.log (Map.get conn s.next_index)
            else done no_tail)
          ≡ done tail)
  unfolding tail_from
  tail_returns conn s fits = elim (dec_lt 0 (length s.log)) [
    | no empty ↦ (no_tail, rw (le→ltb 0 (length s.log) (omega arith)))
    | yes nonempty ↦ elim (Option-cases (Map.get conn s.next_index)) [
      | inl unknown ↦ (no_tail, rw (lt→ltb 0 (length s.log) nonempty, unknown))
      | inr (i, known) ↦
          let (tail, e) = tail_from-within s.log i (fits i known) nonempty in
          (tail, rw (lt→ltb 0 (length s.log) nonempty, known) e)
    ]
  ]

  pub append_request_returns :
      (node_id : NodeId) (conn : String) (s : State T)
      → NextFits conn s
      → (req : AppendEntriesRequest T) × (append_request node_id conn s ≡ done req)
  unfolding append_request
  append_request_returns node_id conn s fits = map_done-done _ (tail_returns conn s fits).1

  -- An answer of a follower leaves every next index where it fits.
  pub record_answer-NextFits :
      (c conn : String) (success : Bool) (s : State T)
      → length s.log + 1 < usize_mod
      → ((c : String) → NextFits c s)
      → (i : LogIndex)
      → Map.get c (record_answer conn (length s.log) success s.volatile_state).next_index ≡ some i
      → i ≤ length s.log + 1
  unfolding record_answer
  record_answer-NextFits c conn true s small fits i h =
      insert-fits conn c (usize_add (length s.log) 1) s.next_index (length s.log + 1)
        (omega (arith, usize_add-eq (length s.log) 1 small)) (fits c) i h
  record_answer-NextFits c conn false s small fits i h =
      back_off-fits conn c (Map.get conn s.next_index) s.volatile_state (length s.log + 1)
        (fits conn) (fits c) i h
