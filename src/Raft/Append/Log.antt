-- ===== src/Raft/Append/Log.antt =====
-- What `append_entries` does to the log and to the term of a node that takes the request.
use native.Mathlib.Decide.{dec_lt}
use quaso.Prelude.{
  ℕ, zero, suc, ◌+◌, ◌≤◌, ◌<◌, ◌≡◌, ◌≢◌, ◌∙◌, ap, true, false, List, [], ◌∷◌, ◌++◌, arith, length,
  get_elem?, take, some, usize_mod, usize_sub, usize_add-eq, le→ltb, lt→ltb, length-append,
  length-take_of_le,
}
use quaso.Prelude.Exec.{done, panic}
use quaso.Raft.Data.{NodeId, leader, LogEntry, State, Shared, Timer, AppendEntriesRequest}
use quaso.Raft.Append.{is_stale, write_log, append_entries}
use quaso.Raft.Append.Accept.{PrevFits}
use quaso.Raft.Append.Refuse.{append_entries_faults}
use quaso.Raft.Append.Commit.{HasAppended, CommitFits}
use quaso.Raft.Append.Outcome.{Takes, success_iff_Takes, Takes-HasAppended}

module _ {T : Type 0} where
  -- A request that reaches the end of the log or goes past it.
  pub write_log_extends :
      (req : AppendEntriesRequest T) (log : List (LogEntry T))
      → length req.entries + req.prev_log_index < usize_mod
      → length log ≤ length req.entries + req.prev_log_index
      → write_log req log ≡ log ++ req.entries
  unfolding write_log
  write_log_extends req log small h = rw (
    usize_add-eq (length req.entries) req.prev_log_index small,
    le→ltb (length req.entries + req.prev_log_index) (length log) h,
  )

  -- A request that ends inside the log.
  pub write_log_truncates :
      (req : AppendEntriesRequest T) (log : List (LogEntry T)) (k : ℕ)
      → length log < usize_mod
      → req.prev_log_index ≡ suc k
      → length req.entries + req.prev_log_index < length log
      → write_log req log ≡ take k log ++ req.entries
  unfolding write_log
  write_log_truncates req log k small e h =
      let i : usize_sub req.prev_log_index 1 ≡ k = omega arith in
      rw (
        usize_add-eq (length req.entries) req.prev_log_index (omega arith),
        lt→ltb (length req.entries + req.prev_log_index) (length log) h,
        i,
      )

  get_elem?-append :
      (xs ys : List (LogEntry T)) (i : ℕ) {e : LogEntry T}
      → get_elem? xs i ≡ some e
      → get_elem? (xs ++ ys) i ≡ some e
  get_elem?-append [] ys i h = cc
  get_elem?-append (x ∷ xs) ys zero h = h
  get_elem?-append (x ∷ xs) ys (suc i) h = get_elem?-append xs ys i h

  PrevFits-append :
      (log ys : List (LogEntry T)) (req : AppendEntriesRequest T)
      → 0 < length log
      → PrevFits log req
      → PrevFits (log ++ ys) req
  PrevFits-append [] ys req h fits = absurd (omega arith)
  PrevFits-append (x ∷ log) ys req h (k, e, p, q, r) =
      (k, e, p, get_elem?-append (x ∷ log) ys k q, r)

  -- In a log with entries the request comes behind one of them.
  pub prev_pos :
      (log : List (LogEntry T)) (req : AppendEntriesRequest T)
      → PrevFits log req
      → 0 < length log
      → (k : ℕ) × (req.prev_log_index ≡ suc k)
  prev_pos [] req fits h = absurd (omega arith)
  prev_pos (x ∷ log) req (k, e, p, q, r) h = (k, p)

module _ {T : Type 0} (node_id : NodeId) (t : Timer) (req : AppendEntriesRequest T) (s : Shared T)
    (small : length s.log < usize_mod) (takes : Takes req s.state) where
  -- A request that is taken and reaches the end of the log appends all its entries.
  pub append_at_end :
      length req.entries + req.prev_log_index < usize_mod
      → length s.log ≤ length req.entries + req.prev_log_index
      → (append_entries node_id t req s).1.log ≡ s.log ++ req.entries
  append_at_end fits h =
      (Takes-HasAppended node_id t req s small takes).log ∙ write_log_extends req s.log fits h

  -- A request that is taken and ends inside the log, which is shorter than 2^64, leaves a log
  -- that is one entry shorter than where the request ends.
  pub append_inside :
      length req.entries + req.prev_log_index < length s.log
      → suc (length (append_entries node_id t req s).1.log)
        ≡ length req.entries + req.prev_log_index
  append_inside h =
      let (k, e) = prev_pos s.log req takes.place (omega arith) in
      omega (
        arith,
        ap length (
            (Takes-HasAppended node_id t req s small takes).log
            ∙ write_log_truncates req s.log k small e h),
        length-append (take k s.log) req.entries,
        length-take_of_le k s.log (omega arith),
      )

  -- A request that is taken and reaches the end of the log, its last index below 2^64, keeps
  -- the commit index inside the log.
  pub taken_commit_bound :
      length req.entries + req.prev_log_index < usize_mod
      → length s.log ≤ length req.entries + req.prev_log_index
      → s.commited_index ≤ length s.log
      → (append_entries node_id t req s).1.commited_index
        ≤ length (append_entries node_id t req s).1.log
  taken_commit_bound fits h bound =
      let has : HasAppended req s (append_entries node_id t req s).1 =
        Takes-HasAppended node_id t req s small takes in
      let written : write_log req s.log ≡ s.log ++ req.entries =
        write_log_extends req s.log fits h in
      rw (has.log, has.commit)
        (elim (dec_lt s.commited_index req.leader_commit) [
          | yes behind ↦ rw (lt→ltb s.commited_index req.leader_commit behind) (takes.commit behind)
          | no level ↦
              rw (le→ltb s.commited_index req.leader_commit (omega arith))
                (omega (arith, ap length written, length-append s.log req.entries))
        ])

module _ {T : Type 0} where
  follower_not_stale :
      (req : AppendEntriesRequest T) (s : State T) → s.node_type ≢ leader → is_stale req s ≡ false
  unfolding is_stale
  follower_not_stale req s h = ground arith

  -- On a log shorter than 2^64, a node that is not a leader answers a request of a lower term
  -- that fits with success, goes back to that term and keeps its vote.
  pub term_goes_back :
      (node_id : NodeId) (t : Timer) (req : AppendEntriesRequest T) (s : Shared T)
      → length s.log < usize_mod
      → s.node_type ≢ leader
      → req.term < s.node_term
      → PrevFits s.log req
      → CommitFits req s.state
      → ((append_entries node_id t req s).0
          ≡ done (record { node_id = node_id; term = req.term; success = true }))
        × ((append_entries node_id t req s).1.node_term ≡ req.term)
        × ((append_entries node_id t req s).1.voted_for ≡ s.voted_for)
  term_goes_back node_id t req s small role older place commit =
      let takes : Takes req s.state = record {
        fresh = follower_not_stale req s.state role;
        place = place;
        commit = commit;
      } in
      let has : HasAppended req s (append_entries node_id t req s).1 =
        Takes-HasAppended node_id t req s small takes in
      (
        (success_iff_Takes node_id t req s small).1 takes,
        has.term,
        has.vote ∙ rw (le→ltb s.node_term req.term (omega arith)),
      )

-- The node after it was sent a request.
abbrev pub once : {T : Type 0} → NodeId → Timer → AppendEntriesRequest T → Shared T → Shared T
once node_id t req s = (append_entries node_id t req s).1

-- A request that was taken at the end of the log arrives a second time.
module _ {T : Type 0} (node_id : NodeId) (t : Timer) (req : AppendEntriesRequest T) (s : Shared T)
    (small : length req.entries + length s.log < usize_mod) (takes : Takes req s.state)
    (at_end : req.prev_log_index ≡ length s.log) where
  has_once : HasAppended req s (once node_id t req s)
  has_once = Takes-HasAppended node_id t req s (omega arith) takes

  log_once : (once node_id t req s).log ≡ s.log ++ req.entries
  log_once = append_at_end node_id t req s (omega arith) takes (omega arith) (omega arith)

  length-once : length (once node_id t req s).log ≡ length s.log + length req.entries
  length-once = ap length log_once ∙ length-append s.log req.entries

  fresh_once : is_stale req (once node_id t req s).state ≡ false
  fresh_once = follower_not_stale req (once node_id t req s).state (λ e. cc (has_once.role))

  commit_once : CommitFits req (once node_id t req s).state
  commit_once behind = ground (arith, has_once.commit)

  -- Sent a second time, a request that was taken at the end of a log with entries appends its
  -- entries once more. The log with the entries is shorter than 2^64.
  pub repeat_appends_again :
      0 < length s.log
      → (append_entries node_id t req (once node_id t req s)).1.log
        ≡ (s.log ++ req.entries) ++ req.entries
  repeat_appends_again nonempty =
      let again : Takes req (once node_id t req s).state = record {
        fresh = fresh_once;
        place = rw log_once (PrevFits-append s.log req.entries req nonempty takes.place);
        commit = commit_once;
      } in
      append_at_end node_id t req (once node_id t req s) (omega (arith, length-once)) again
        (omega arith) (omega (arith, length-once))
      ∙ ap (λ l. l ++ req.entries) log_once

  -- Sent a second time, a request with entries that was taken on an empty log panics the
  -- handler. The entries are fewer than 2^64.
  pub repeat_first_panics :
      s.log ≡ []
      → 0 < length req.entries
      → append_entries node_id t req (once node_id t req s) ≡ (panic, (once node_id t req s))
  repeat_first_panics empty some_entries =
      append_entries_faults node_id t req (once node_id t req s) (omega (arith, length-once))
        fresh_once (omega (arith, length-once), at_end ∙ ap length empty)
