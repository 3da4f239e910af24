-- ===== src/Raft/Append/Commit.antt =====
-- How `append_entries` follows the leader's commit index, and the state that it ends in.
use native.Mathlib.Decide.{dec_lt}
use mathlib.Core.List.{append-nil}
use quaso.Prelude.{
  ◌-◌, ◌≤◌, ◌<◌, ◌≡◌, refl, true, some, ◌++◌, arith, ltb, if◌then◌else◌, length, take, drop,
  Bool-cases, inl, inr, le→ltb, lt→ltb,
}
use quaso.Prelude.Exec.{done, panic}
use quaso.Raft.Data.{
  LogIndex, follower, State, Shared, Timer, AppendEntriesRequest, set_commited_index,
}
use quaso.Raft.Deliver.{deliver_range_done, deliver_range_panic}
use quaso.Raft.Append.{accept, write_log, follow_commit}
use quaso.Raft.Append.Accept.{accepted}

module _ {T : Type 0} where
  -- The commit index with its entries delivered.
  abbrev pub followed : LogIndex → Shared T → Shared T
  followed leader_commit s = record {
    state =
        set_commited_index
          (if ltb s.commited_index leader_commit then leader_commit else s.commited_index) s.state;
    delivered =
        s.delivered ++ take (leader_commit - s.commited_index) (drop s.commited_index s.log);
  }

  pub follow_commit_done :
      (leader_commit : LogIndex) (s : Shared T)
      → (s.commited_index < leader_commit → leader_commit ≤ length s.log)
      → follow_commit leader_commit s ≡ (done tt, followed leader_commit s)
  unfolding follow_commit
  follow_commit_done lc s fits = elim (dec_lt s.commited_index lc) [
    | yes behind ↦ rw (
      lt→ltb s.commited_index lc behind,
      deliver_range_done (lc - s.commited_index) s.commited_index s
          (let f = fits behind in omega arith),
    )
    | no level ↦
        let none_left : lc - s.commited_index ≡ 0 = omega arith in
        rw (le→ltb s.commited_index lc (omega arith), none_left, append-nil)
  ]

  pub follow_commit_panic :
      (leader_commit : LogIndex) (s : Shared T)
      → s.commited_index < leader_commit
      → length s.log < leader_commit
      → follow_commit leader_commit s
        ≡ (panic, record s { delivered = s.delivered ++ drop s.commited_index s.log })
  unfolding follow_commit
  follow_commit_panic lc s behind short = rw (
    lt→ltb s.commited_index lc behind,
    deliver_range_panic (lc - s.commited_index) s.commited_index s (omega arith) (omega arith),
  )

  -- The leader's commit index, where it is news, lies in the log that the request leaves.
  abbrev pub CommitFits : AppendEntriesRequest T → State T → Type 0
  CommitFits req s =
      s.commited_index < req.leader_commit → req.leader_commit ≤ length (write_log req s.log)

  pub commited-accept :
      (t : Timer) (req : AppendEntriesRequest T) (s : State T)
      → (accept t req s).commited_index ≡ s.commited_index
  unfolding accept
  commited-accept t req s = ground arith

  -- What an accepted request leaves behind.
  pub record HasAppended (req : AppendEntriesRequest T) (s s' : Shared T) : Type 0 where
    pub term : s'.node_term ≡ req.term
    pub role : s'.node_type ≡ follower
    pub heard : s'.recieved_leader_heartbeat ≡ true
    pub vote : s'.voted_for ≡ (if ltb s.node_term req.term then some req.leader_id else s.voted_for)
    pub log : s'.log ≡ write_log req s.log
    pub commit :
        s'.commited_index
        ≡ (if ltb s.commited_index req.leader_commit then req.leader_commit else s.commited_index)
    pub delivered :
        s'.delivered
        ≡ s.delivered
          ++ take
              (req.leader_commit - s.commited_index)
              (drop s.commited_index (write_log req s.log))

  pub HasAppended-followed :
      (t : Timer) (req : AppendEntriesRequest T) (s : Shared T)
      → HasAppended req s (followed req.leader_commit (accepted t req s))
  unfolding accept
  HasAppended-followed t req s = elim (Bool-cases (ltb s.node_term req.term)) [
    | inl e ↦ rw e (record {
      term = refl;
      role = refl;
      heard = refl;
      vote = rw e;
      log = refl;
      commit = refl;
      delivered = refl;
    })
    | inr e ↦ rw e (record {
      term = refl;
      role = refl;
      heard = refl;
      vote = rw e;
      log = refl;
      commit = refl;
      delivered = refl;
    })
  ]
