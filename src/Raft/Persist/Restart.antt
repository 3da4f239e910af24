-- ===== src/Raft/Persist/Restart.antt =====
-- What a node that starts again finds in its file, and what it has forgotten.
use quaso.Prelude.{
  length-take_of_le, take-take, zero, suc, ◌≤◌, ◌<◌, ◌+◌, ◌≡◌, ◌↔◌, refl, ap, ◌∙◌, String, true,
  Option, none, some, List, arith, length, last?, take, le→ltb, lt→ltb, le→leb, lt→leb,
}
use native.Mathlib.Decide.{dec_lt}
use quaso.Prelude.Exec.{Outcome, done, panic}
use quaso.Raft.Data.{
  Shared, NodeId, LogIndex, init_volatile, LogEntry, Instant, Timer, PersistentState, State,
  ElectionVoteRequest,
}
use quaso.Raft.Client.{Bytes}
use quaso.Raft.Node.{Raft, new_from_config}
use quaso.Raft.Vote.{request_vote}
use quaso.Raft.Vote.Grant.{IsUpToDate, MayVote, grant_iff_MayVote}
use quaso.Raft.Append.{follow_commit}
use quaso.Raft.Append.Commit.{followed, follow_commit_done}
use quaso.Raft.Persist.{
  File, Disk, init_state, log_to_persist, persist, replace_file, try_persist_state,
}

module _ {T : Type 0} where
  -- What a restart gives back of a state.
  abbrev pub kept : LogIndex → PersistentState T → PersistentState T
  kept k p = record p { log = take k p.log }

module _ {T : Type 0} (disk : Disk T) where
  -- bincode gives back what it was given, and the file can be written and read.
  pub record IsReliable : Type 0 where
    pub opens : disk.opens ≡ true
    pub creates : disk.creates ≡ true
    pub writes : (b : Bytes) → disk.write b ≡ (b, true)
    pub codec :
        (p : PersistentState T)
        → (b : Bytes) × (disk.serialize p ≡ some b) × (disk.deserialize b ≡ some p)

  log_to_persist-take :
      (k : LogIndex) (log : List (LogEntry T))
      → k ≤ length log
      → log_to_persist k log ≡ done (take k log)
  unfolding log_to_persist
  log_to_persist-take zero log h = refl
  log_to_persist-take (suc k) log h =
      rw (lt→ltb 0 (suc k) (omega arith), le→leb (suc k) (length log) h)

  pub log_to_persist-past :
      (k : LogIndex) (log : List (LogEntry T)) → length log < k → log_to_persist k log ≡ panic
  unfolding log_to_persist
  log_to_persist-past zero log h = absurd (omega arith)
  log_to_persist-past (suc k) log h =
      rw (lt→ltb 0 (suc k) (omega arith), lt→leb (suc k) (length log) h)

  module _ (reliable : IsReliable) (k : LogIndex) (p : PersistentState T) (file : File) where
    persist_returns :
        k ≤ length p.log
        → (b : Bytes) × (persist disk k p file ≡ (done tt, some b))
          × (disk.deserialize b ≡ some (kept k p))
    unfolding persist replace_file
    persist_returns within =
        let (b, ser, de) = reliable.codec (kept k p) in
        (b, rw (log_to_persist-take k p.log within, ser, reliable.creates, reliable.writes b), de)

    -- With a file that can be written and read and bincode giving back what it was given,
    -- persisting at a commit index inside the log returns, and starting again gives the same
    -- term and vote and the log up to the commit index.
    pub persist_round_trip :
        k ≤ length p.log
        → ((persist disk k p file).0 ≡ done tt)
          × (init_state disk (persist disk k p file).1
              ≡ (done (kept k p), (persist disk k p file).1))
    unfolding init_state
    persist_round_trip within =
        let (b, returns, de) = persist_returns within in
        (
          ap (λ (x : Outcome (Unit {0}) × File). x.0) returns,
          rw (ap (λ (x : Outcome (Unit {0}) × File). x.1) returns, reliable.opens, de),
        )

    past-panic : length p.log < k → (persist disk k p file ≡ (panic, file))
    unfolding persist
    past-panic h = rw (log_to_persist-past k p.log h)

    -- With the same file, persisting panics exactly if the commit index is past the end of the
    -- log.
    pub persist_panic : ((persist disk k p file).0 ≡ panic) ↔ (length p.log < k)
    persist_panic = (
      λ e. elim (dec_lt (length p.log) k) [
        | yes past ↦ past
        | no within ↦ let (b, returns, de) = persist_returns (omega arith) in cc
      ],
      λ h. ap (λ (x : Outcome (Unit {0}) × File). x.0) (past-panic h),
    )

module _ {T : Type 0} (t : Timer) (node_id : NodeId) (conns : List String) (addr : String) where
  -- The node that is built from a state, before it has done anything.
  abbrev pub started : PersistentState T → Shared T
  started p = (new_from_config t node_id conns addr p).shared

  started-follow_commit :
      (leader_commit : LogIndex) (p : PersistentState T)
      → leader_commit ≤ length p.log
      → follow_commit leader_commit (started p) ≡ (done tt, followed leader_commit (started p))
  unfolding new_from_config init_volatile
  started-follow_commit leader_commit p h =
      follow_commit_done leader_commit (started p) (λ behind. h)

  started-followed :
      (leader_commit : LogIndex) (p : PersistentState T)
      → (followed leader_commit (started p)).delivered ≡ take leader_commit p.log
  unfolding new_from_config init_volatile
  started-followed leader_commit p = ap (λ n. take n p.log) (omega arith)

  -- With the same file, a node that is persisted at a commit index inside the log and started
  -- again delivers, on hearing of a commit index that is not past it, exactly the entries up to
  -- there, from the first one on, without a panic.
  pub restart_redelivers :
      (disk : Disk T) (k leader_commit : LogIndex) (p : PersistentState T) (file : File)
      → IsReliable disk
      → k ≤ length p.log
      → leader_commit ≤ k
      → ((init_state disk (persist disk k p file).1).0 ≡ done (kept k p))
        × ((follow_commit leader_commit (started (kept k p))).0 ≡ done tt)
        × ((follow_commit leader_commit (started (kept k p))).1.delivered
            ≡ take leader_commit p.log)
  restart_redelivers disk k leader_commit p file reliable within h =
      let follows : follow_commit leader_commit (started (kept k p))
          ≡ (done tt, followed leader_commit (started (kept k p))) =
        started-follow_commit leader_commit (kept k p)
          (omega (arith, length-take_of_le k p.log within)) in
      (
        ap (λ (x : Outcome (PersistentState T) × File). x.0)
            (persist_round_trip disk reliable k p file within).1,
        ap (λ (x : Outcome (Unit {0}) × Shared T). x.0) follows,
        ap (λ (x : Outcome (Unit {0}) × Shared T). x.1.delivered) follows
            ∙ started-followed leader_commit (kept k p)
            ∙ take-take leader_commit k p.log h,
      )

module _ {T : Type 0} where
  request_vote-persist_timeout :
      (node_id : NodeId) (t : Timer) (req : ElectionVoteRequest) (s : State T)
      → (request_vote node_id t req s).1.persist_timeout ≡ s.persist_timeout
  unfolding request_vote
  request_vote-persist_timeout node_id t req s = ground arith

  IsUpToDate-same :
      (o : Option (LogEntry T)) (req : ElectionVoteRequest) (s s' : State T)
      → s'.voted_for ≡ s.voted_for
      → s'.log ≡ s.log
      → IsUpToDate o req s
      → IsUpToDate o req s'
  IsUpToDate-same none req s s' vote log h = vote ∙ h
  IsUpToDate-same (some e) req s s' vote log h = rw log h

module _ {T : Type 0} (node_id : NodeId) (t : Timer) (conns : List String) (addr : String)
    (p : PersistentState T) where
  -- The node that started from `p`, once it has handled a vote request.
  abbrev pub after_vote : ElectionVoteRequest → Raft T
  after_vote req =
      let r : Raft T = new_from_config t node_id conns addr p in
      record r { shared = record r.shared { state = (request_vote node_id t req r.state).1 } }

  after_vote-persist_timeout :
      (req : ElectionVoteRequest) → (after_vote req).persist_timeout ≡ t.now + 5000
  unfolding new_from_config init_volatile
  after_vote-persist_timeout req =
      request_vote-persist_timeout node_id t req (new_from_config t node_id conns addr p).state

module _ {T : Type 0} (disk : Disk T) (node_id : NodeId) (t t' : Timer) (conns : List String)
    (addr : String) (p : PersistentState T) (b : Bytes) where
  not_yet :
      (now later : Instant) (r : Raft T) (file : File)
      → now ≤ r.persist_timeout
      → try_persist_state disk now later (r, file) ≡ (done tt, (r, file))
  unfolding try_persist_state
  not_yet now later r file h = rw (le→ltb r.persist_timeout now h)

  restarts :
      disk.opens ≡ true → disk.deserialize b ≡ some p → init_state disk (some b) ≡ (done p, some b)
  unfolding init_state
  restarts opens codec = rw (opens, codec)

  may_again :
      (req : ElectionVoteRequest)
      → MayVote req (new_from_config t node_id conns addr p).state
      → MayVote req (new_from_config t' node_id conns addr p).state
  unfolding new_from_config
  may_again req h = record {
    not_behind = h.not_behind;
    free = h.free;
    up_to_date =
        IsUpToDate-same (last? p.log) req (new_from_config t node_id conns addr p).state
          (new_from_config t' node_id conns addr p).state refl refl h.up_to_date;
  }

  -- A node starts from a file and may vote for either of two requests. It grants the first; a
  -- tick in the next five seconds writes nothing; it starts again from the file as it was, and
  -- grants the second, whatever the terms and candidates of the two are.
  pub restart_votes_again :
      (now later : Instant) (one other : ElectionVoteRequest)
      → disk.opens ≡ true
      → disk.deserialize b ≡ some p
      → now ≤ t.now + 5000
      → MayVote one (new_from_config t node_id conns addr p).state
      → MayVote other (new_from_config t node_id conns addr p).state
      → ((request_vote node_id t one (new_from_config t node_id conns addr p).state).0.vote_granted
          ≡ true)
        × (try_persist_state disk now later (after_vote node_id t conns addr p one, some b)
            ≡ (done tt, (after_vote node_id t conns addr p one, some b)))
        × (init_state disk (some b) ≡ (done p, some b))
        × ((request_vote node_id t' other
              (new_from_config t' node_id conns addr p).state).0.vote_granted
            ≡ true)
  restart_votes_again now later one other opens codec soon may_one may_other = (
    (grant_iff_MayVote node_id t one (new_from_config t node_id conns addr p).state).1 may_one,
    not_yet now later (after_vote node_id t conns addr p one) (some b)
        (omega (arith, after_vote-persist_timeout node_id t conns addr p one)),
    restarts opens codec,
    (grant_iff_MayVote node_id t' other (new_from_config t' node_id conns addr p).state).1
        (may_again other may_other),
  )
