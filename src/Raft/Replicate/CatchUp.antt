-- ===== src/Raft/Replicate/CatchUp.antt =====
-- A leader and a follower that lacks entries, over one heartbeat after another: the leader's requests
-- of state.rs, the follower's handler of rpc.rs, and what its answers do to the leader's indices.
use mathlib.Core.Path.{subst}
use quaso.Prelude.{
  ℕ, zero, suc, ◌+◌, ◌-◌, ◌≤◌, ◌<◌, ◌≡◌, refl, ap, ◌∙◌, String, Bool, true, false, some, List,
  arith, length, take, usize_mod, usize_add, usize_add-eq, length-take_of_le, lt→ltb, str_eq_iff,
  inl,
}
use quaso.Prelude.Exec.{Exec, Outcome, done, panic, pure, ◌>>◌}
use quaso.HashMap as Map
use quaso.HashMap.{get-insert}
use quaso.Raft.Data.{
  NodeId, NodeTerm, LogEntry, State, Shared, Timer, AppendEntriesRequest, AppendEntriesResponse,
}
use quaso.Raft.Append.{append_entries}
use quaso.Raft.Append.Refuse.{append_entries_differs}
use quaso.Raft.Heartbeat.{append_request, record_answer}
use quaso.Raft.Replicate.{
  request_at, append_request-request_at, not_stale, append_entries-append_request,
}

get-insert_same :
    {V : Type 0} (k : String) (v : V) (m : Map.HashMap V) → Map.get k (Map.insert k v m) ≡ some v
get-insert_same k v m = rw (get-insert k k v m, (str_eq_iff k k).1 refl)

module _ {T : Type 0} (node_id follower_id : NodeId) (conn : String) where
  -- What the leader knows after the answer. A handler that panics gives none.
  abbrev pub learn : Bool → State T → State T
  learn success l = record l {
    volatile_state = record_answer conn (length l.log) success l.volatile_state;
  }

  abbrev pub answered :
      State T → Outcome AppendEntriesResponse × Shared T → Outcome (Unit {0}) × (State T × Shared T)
  answered l (done resp, f) = (done tt, (learn resp.success l, f))
  answered l (panic, f) = (done tt, (l, f))

  abbrev pub requested :
      Timer → Outcome (AppendEntriesRequest T) → Exec (State T × Shared T) (Unit {0})
  requested t (done req) (l, f) = answered l (append_entries follower_id t req f)
  requested t panic (l, f) = (panic, (l, f))

  unfoldable pub exchange : Timer → Exec (State T × Shared T) (Unit {0})
  exchange t (l, f) = requested t (append_request node_id conn l) (l, f)

  -- `n` heartbeats; `clock` has the follower's time at each.
  unfoldable pub exchanges : (ℕ → Timer) → ℕ → Exec (State T × Shared T) (Unit {0})
  unfolding exchange
  exchanges clock zero = pure tt
  exchanges clock (suc n) = do exchange (clock n); exchanges clock n

  -- The leader's next index is `n + 1`, and the follower has its first `k` entries.
  pub record IsBehind (k n : ℕ) (l : State T) (f : Shared T) : Type 0 where
    pub some_entries : 0 < length l.log
    pub word : length l.log + 1 < usize_mod
    pub known : Map.get conn l.next_index ≡ some (suc n)
    pub past : k ≤ n
    pub within : n ≤ length l.log
    pub prefix : f.log ≡ take k l.log
    pub not_ahead : f.node_term ≤ l.node_term
    pub commit : l.commited_index ≤ length l.log

  pub record IsCaughtUp (log : List (LogEntry T)) (term : NodeTerm)
      (r : Outcome (Unit {0}) × (State T × Shared T)) : Type 0 where
    pub returns : r.0 ≡ done tt
    pub same_log : r.1.1.log ≡ log
    pub same_term : r.1.1.node_term ≡ term
    pub next : Map.get conn r.1.0.next_index ≡ some (length log + 1)
    pub match_at : Map.get conn r.1.0.match_index ≡ some (length log)

  learn_success :
      (l : State T)
      → 0 < length l.log
      → length l.log + 1 < usize_mod
      → (Map.get conn (learn true l).next_index ≡ some (length l.log + 1))
        × (Map.get conn (learn true l).match_index ≡ some (length l.log))
  unfolding record_answer
  learn_success l h word = (
    get-insert_same conn (usize_add (length l.log) 1) l.next_index
        ∙ ap some (usize_add-eq (length l.log) 1 word),
    rw (lt→ltb 0 (length l.log) h) (get-insert_same conn (length l.log) l.match_index),
  )

  learn_refusal :
      (l : State T) (n : ℕ)
      → Map.get conn l.next_index ≡ some (suc (suc n))
      → Map.get conn (learn false l).next_index ≡ some (suc n)
  unfolding record_answer
  learn_refusal l n known =
      rw (known, lt→ltb 1 (suc (suc n)) (omega arith))
        (get-insert_same conn (suc (suc n) - 1) l.next_index ∙ ap some (omega arith))

  learn_refusal-commit :
      (l : State T) (n : ℕ)
      → Map.get conn l.next_index ≡ some (suc (suc n))
      → (learn false l).commited_index ≡ l.commited_index
  unfolding record_answer
  learn_refusal-commit l n known = rw (known, lt→ltb 1 (suc (suc n)) (omega arith)) refl

  -- A follower with fewer entries than the leader takes it to have refuses.
  exchange_refused :
      (t : Timer) (k n : ℕ) (l : State T) (f : Shared T)
      → IsBehind k (suc n) l f
      → k ≤ n
      → exchange t (l, f) ≡ (done tt, (learn false l, f))
  unfolding exchange
  exchange_refused t k n l f h le =
      let req : AppendEntriesRequest T = request_at node_id l (suc n) in
      let short : length f.log ≡ k =
        ap length h.prefix ∙ length-take_of_le k l.log (omega (arith, h.within)) in
      rw (
        append_request-request_at node_id conn l (suc n) h.some_entries h.within h.known,
        append_entries_differs follower_id t req f (omega (arith, short, h.word, h.within))
            (not_stale req f.state h.not_ahead) (inl (omega (arith, short))),
      )

  exchange_taken :
      (t : Timer) (n : ℕ) (l : State T) (f : Shared T)
      → IsBehind n n l f
      → (f' : Shared T) × (exchange t (l, f) ≡ (done tt, (learn true l, f')))
        × (f'.log ≡ l.log)
        × (f'.node_term ≡ l.node_term)
  unfolding exchange
  exchange_taken t n l f h =
      let (req, built, taken, log, term, commit) =
        append_entries-append_request l f conn n node_id follower_id t (record {
          some_entries = h.some_entries;
          word = omega (arith, h.word);
          known = h.known;
          within = h.within;
          prefix = h.prefix;
          not_ahead = h.not_ahead;
          commit = h.commit;
        }) in
      (
        (append_entries follower_id t req f).1,
        rw built (ap (λ o. answered l (o, (append_entries follower_id t req f).1)) taken),
        log,
        term,
      )

  one_back :
      (k n : ℕ) (l : State T) (f : Shared T)
      → IsBehind k (suc n) l f
      → k ≤ n
      → IsBehind k n (learn false l) f
  one_back k n l f h past = record {
    some_entries = h.some_entries;
    word = h.word;
    known = learn_refusal l n h.known;
    past = past;
    within = omega (arith, h.within);
    prefix = h.prefix;
    not_ahead = h.not_ahead;
    commit = rw (learn_refusal-commit l n h.known) h.commit;
  }

  exchanges_from :
      (clock : ℕ → Timer) (k d n : ℕ) (l : State T) (f : Shared T)
      → n ≡ d + k
      → IsBehind k n l f
      → IsCaughtUp l.log l.node_term (exchanges clock (suc d) (l, f))
  unfolding exchanges
  exchanges_from clock k zero n l f e h =
      let (f', took, log, term) =
        exchange_taken (clock 0) n l f (subst (λ x. IsBehind x n l f) (omega arith) h) in
      let (next, match_at) = learn_success l h.some_entries h.word in
      rw took (record {
        returns = refl;
        same_log = log;
        same_term = term;
        next = next;
        match_at = match_at;
      })
  exchanges_from clock k (suc d) n l f e h =
      let far : IsBehind k (suc (d + k)) l f = subst (λ x. IsBehind k x l f) (omega arith) h in
      rw (exchange_refused (clock (suc d)) k (d + k) l f far (omega arith)) (
        exchanges_from clock k d (d + k) (learn false l) f refl
          (one_back k (d + k) l f far (omega arith)))

  -- A leader has entries, fewer than 2^64 - 1 of them, its commit index is inside its log and
  -- its next index for a follower is `n + 1`; the follower's log is the first `k` entries of
  -- the leader's, with `k` at most `n`, and its term is not higher. Then after `n - k + 1`
  -- heartbeats, none of which panics the leader, the follower has the leader's log and term,
  -- and the leader's next and match index for it are those of its whole log.
  pub exchanges-IsCaughtUp :
      (clock : ℕ → Timer) (k n : ℕ) (l : State T) (f : Shared T)
      → IsBehind k n l f
      → IsCaughtUp l.log l.node_term (exchanges clock (suc (n - k)) (l, f))
  exchanges-IsCaughtUp clock k n l f h =
      exchanges_from clock k (n - k) n l f (omega (arith, h.past)) h
