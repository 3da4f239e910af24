-- ===== src/Raft/Replicate.antt =====
-- A heartbeat from end to end: the request that the leader builds for a follower (state.rs), and
-- what the follower's handler makes of it (rpc.rs).
pub mod CatchUp
mod Tests
use native.Mathlib.Decide.{dec_lt}
use quaso.Prelude.{
  ℕ, zero, suc, ◌+◌, ◌-◌, ◌≤◌, ◌<◌, ◌≡◌, refl, sym, ◌∙◌, String, Bool, true, false, Option, none,
  some, List, [], ◌∷◌, ◌++◌, arith, ltb, leb, ◌==◌, if◌then◌else◌, length, get_elem?, take, drop,
  usize_mod, usize_add, usize_add-eq, get_elem?-some, get_elem?-take, length-drop,
  length-take_of_le, take-append-drop, lt→ltb, le→ltb, le→leb, lt→leb, length-append, ap,
}
use quaso.Prelude.Exec.{done}
use quaso.HashMap as Map
use quaso.Raft.Data.{NodeId, NodeTerm, LogEntry, State, Shared, Timer, AppendEntriesRequest}
use quaso.Raft.Append.{is_stale, write_log, append_entries}
use quaso.Raft.Append.Accept.{PrevFits}
use quaso.Raft.Append.Commit.{HasAppended}
use quaso.Raft.Append.Outcome.{Takes, success_iff_Takes, Takes-HasAppended}
use quaso.Raft.Heartbeat.{append_request}

module _ {T : Type 0} where
  abbrev pub term_of : Option (LogEntry T) → NodeTerm
  term_of none = 0
  term_of (some e) = e.term

  -- The term of the entry just before the one at `k`.
  abbrev pub term_before : ℕ → List (LogEntry T) → NodeTerm
  term_before zero log = 0
  term_before (suc j) log = term_of (get_elem? log j)

  -- The request with all that the leader has from the entry at `k` on.
  abbrev pub request_at : NodeId → State T → ℕ → AppendEntriesRequest T
  request_at node_id s k = record {
    term = s.node_term;
    leader_id = node_id;
    prev_log_index = k;
    prev_log_term = term_before k s.log;
    entries = drop k s.log;
    leader_commit = s.commited_index;
  }

  pub append_request-request_at :
      (node_id : NodeId) (conn : String) (s : State T) (k : ℕ)
      → 0 < length s.log
      → k ≤ length s.log
      → Map.get conn s.next_index ≡ some (suc k)
      → append_request node_id conn s ≡ done (request_at node_id s k)
  unfolding append_request
  append_request-request_at node_id conn s zero h le e = rw (lt→ltb 0 (length s.log) h, e)
  append_request-request_at node_id conn s (suc j) h le e =
      let (x, at) = get_elem?-some s.log j (omega arith) in
      let one : suc (suc j) - 1 ≡ suc j = omega arith in
      let two : suc j - 1 ≡ j = omega arith in
      rw (
        lt→ltb 0 (length s.log) h,
        e,
        le→leb 2 (suc (suc j)) (omega arith),
        one,
        two,
        at,
        le→leb (suc j) (length s.log) le,
      )

  term_before-some :
      (j : ℕ) (log : List (LogEntry T)) {e : LogEntry T}
      → get_elem? log j ≡ some e
      → e.term ≡ term_before (suc j) log
  term_before-some j log h = rw (h, term_before)

  PrevFits-request_at :
      (node_id : NodeId) (s : State T) (k : ℕ) (log : List (LogEntry T))
      → s.log ≡ log
      → k ≤ length log
      → PrevFits (take k log) (request_at node_id s k)
  PrevFits-request_at node_id s zero log e h = refl
  PrevFits-request_at node_id s (suc j) [] e h = absurd (omega arith)
  PrevFits-request_at node_id s (suc j) (x ∷ l) e h =
      let (y, at) = get_elem?-some (x ∷ l) j h in
      (
        j,
        y,
        refl,
        get_elem?-take (suc j) j (x ∷ l) (omega arith) ∙ at,
        term_before-some j (x ∷ l) at ∙ ap (term_before (suc j)) (sym e),
      )

  write_log-request_at :
      (node_id : NodeId) (s : State T) (k : ℕ)
      → length s.log < usize_mod
      → k ≤ length s.log
      → write_log (request_at node_id s k) (take k s.log) ≡ s.log
  unfolding write_log
  write_log-request_at node_id s k small h = rw (
    usize_add-eq (length (drop k s.log)) k (omega (arith, length-drop k s.log)),
    le→ltb (length (drop k s.log) + k) (length (take k s.log))
        (omega (arith, length-drop k s.log, length-take_of_le k s.log)),
    take-append-drop k s.log,
  )

  pub not_stale :
      (req : AppendEntriesRequest T) (s : State T) → s.node_term ≤ req.term → is_stale req s ≡ false
  unfolding is_stale
  not_stale req s h = rw (le→ltb req.term s.node_term h)

module _ {T : Type 0} (l : State T) (f : Shared T) (conn : String) (k : ℕ) where
  -- The leader `l` knows that the follower `f` has exactly its first `k` entries.
  pub record IsPrefixKnown : Type 0 where
    pub some_entries : 0 < length l.log
    pub word : length l.log < usize_mod
    pub known : Map.get conn l.next_index ≡ some (suc k)
    pub within : k ≤ length l.log
    pub prefix : f.log ≡ take k l.log
    pub not_ahead : f.node_term ≤ l.node_term
    pub commit : l.commited_index ≤ length l.log

  pub request_taken :
      (node_id follower_id : NodeId) (t : Timer)
      → IsPrefixKnown
      → (req : AppendEntriesRequest T) × (append_request node_id conn l ≡ done req)
        × ((append_entries follower_id t req f).0
            ≡ done (record { node_id = follower_id; term = l.node_term; success = true }))
        × (req.term ≡ l.node_term)
        × (req.leader_commit ≡ l.commited_index)
        × (write_log req f.log ≡ l.log)
        × HasAppended req f (append_entries follower_id t req f).1
  request_taken node_id follower_id t h =
      let req : AppendEntriesRequest T = request_at node_id l k in
      let small : length f.log < usize_mod =
        omega (arith, ap length h.prefix, length-take_of_le k l.log h.within, h.word) in
      let written : write_log req f.log ≡ l.log =
        rw h.prefix (write_log-request_at node_id l k h.word h.within) in
      let takes : Takes req f.state = record {
        fresh = not_stale req f.state h.not_ahead;
        place = rw h.prefix (PrevFits-request_at node_id l k l.log refl h.within);
        commit = λ _. rw written h.commit;
      } in
      (
        req,
        append_request-request_at node_id conn l k h.some_entries h.within h.known,
        (success_iff_Takes follower_id t req f small).1 takes,
        refl,
        refl,
        written,
        Takes-HasAppended follower_id t req f small takes,
      )

  -- The leader `l` has entries, at most 2^64 - 1 of them, its commit index is inside its log
  -- and its next index for `conn` is `k + 1`; the log of the follower `f` is the first `k`
  -- entries of the leader's, and its term is not higher. Then the leader builds a request, and
  -- the follower's handler answers it with success and the leader's term, has the leader's log
  -- and term, and the larger of the two commit indices.
  pub append_entries-append_request :
      (node_id follower_id : NodeId) (t : Timer)
      → IsPrefixKnown
      → (req : AppendEntriesRequest T) × (append_request node_id conn l ≡ done req)
        × ((append_entries follower_id t req f).0
            ≡ done (record { node_id = follower_id; term = l.node_term; success = true }))
        × ((append_entries follower_id t req f).1.log ≡ l.log)
        × ((append_entries follower_id t req f).1.node_term ≡ l.node_term)
        × ((append_entries follower_id t req f).1.commited_index ≡ (
            if ltb f.commited_index l.commited_index then l.commited_index else f.commited_index))
  append_entries-append_request node_id follower_id t h =
      let (req, built, taken, term, commit, written, has) = request_taken node_id follower_id t h in
      (req, built, taken, has.log ∙ written, has.term ∙ term, rw commit at has.commit)
