-- ===== src/Raft/Committed.antt =====
-- What a node has delivered beside its log: the steps of its listener (rpc.rs) and of its ticker and
-- its store's task (state.rs), each under the lock.
use quaso.Prelude.{
  String, ℕ, ◌+◌, ◌-◌, ◌≤◌, ◌<◌, ◌≡◌, refl, sym, ap, ◌∙◌, inl, inr, Option, none, some, List, [],
  ◌∷◌, ◌++◌, arith, length, take, drop, take-append, take-take-drop, length-append, usize_mod,
  lt→ltb, le→ltb, Bool-cases, false,
}
use native.Mathlib.Decide.{dec_lt, dec_le}
use mathlib.Core.List.{append-nil}
use quaso.Prelude.Exec.{Outcome, done, panic, pure, continue}
use quaso.Raft.Data.{
  NodeId, NodeTerm, NodeRole, Instant, LogIndex, LogEntry, leader, role_eq, Shared, Timer,
  PersistentState, RequestPattern, AppendEntriesRequest, AppendEntriesResponse, ping_rpc,
  append_entries_rpc, request_vote_rpc, init_volatile, set_leader_heartbeat,
}
use quaso.Raft.Client.{Network}
use quaso.Raft.Vote.Grant.{votes_or_stays}
use quaso.Raft.Append.{append_entries}
use quaso.Raft.Append.Commit.{HasAppended}
use quaso.Raft.Append.Log.{append_at_end, taken_commit_bound}
use quaso.Raft.Append.Outcome.{Takes-HasAppended, append_entries_returns}
use quaso.Raft.Deliver.{deliver_range_done, deliver_range_panic}
use quaso.Raft.Node.{
  Raft, new_from_config, on_node_state, transition_wrapper, transition_to_term, append_entry,
}
use quaso.Raft.Heartbeat.{maybe_send_heartbeat}
use quaso.Raft.Commit.{commit_to, maybe_commit_log_entries}
use quaso.Raft.Election.{After, retry, win, step_down, election_section, finish}
use quaso.Raft.Election.Votes.{
  election_section-log, election_section-commited_index, election_section-delivered,
}
use quaso.Raft.Persist.{set_persist_timeout}
use quaso.Raft.Server.{Response, appended, dispatch}
use quaso.Raft.Server.Ballots.{appended-state}
use quaso.Raft.Tick.Leader.{heartbeat-Reindexes}

module _ {T : Type 0} where
  -- A request for entries does not end inside the log, nor past the range of an index.
  abbrev pub ReachesEnd : RequestPattern T → Shared T → Type 0
  ReachesEnd (append_entries_rpc req) s =
      (length s.log ≤ length req.entries + req.prev_log_index)
      × (length req.entries + req.prev_log_index < usize_mod)
  ReachesEnd _ s = Unit

  -- What changes a node's state while it holds the lock.
  pub data Step : Raft T → Raft T → Type 0 where
    receives :
        (r : Raft T) (t : Timer) (req : RequestPattern T) (resp : Response)
        → (dispatch r.node_id t req r.shared).0 ≡ done resp
        → length r.log < usize_mod
        → ReachesEnd req r.shared
        → Step r (record r { shared = (dispatch r.node_id t req r.shared).1 })
    heartbeats :
        (r : Raft T) (net : Network T) (t t' : Timer) → Step r (maybe_send_heartbeat net t t' r).1
    commits :
        (r : Raft T) (order : List (LogIndex × ℕ) → List (LogIndex × ℕ))
        → (maybe_commit_log_entries order r).0 ≡ done tt
        → Step r (maybe_commit_log_entries order r).1
    stands : (r : Raft T) (role : NodeRole) (n : NodeTerm) → Step r (transition_wrapper role n r)
    campaigns :
        (r : Raft T) (net : Network T) (clock : ℕ → Instant) (t : Timer)
        → Step r (election_section net clock t r).1
    finishes : (r : Raft T) (after : After) → Step r (finish after r)
    persists : (r : Raft T) (i : Instant) → Step r (set_persist_timeout i r)
    ends_round : (r : Raft T) → Step r (on_node_state (set_leader_heartbeat false) r)

  -- What is delivered is the log up to the commit index.
  pub record IsCommitted (s : Shared T) : Type 0 where
    pub within : s.commited_index ≤ length s.log
    pub delivered : s.delivered ≡ take s.commited_index s.log

  -- After a step, what is delivered is still that, and perhaps there is more of it.
  pub record Advances (s s' : Shared T) : Type 0 where
    pub commited : IsCommitted s'
    pub more : List (LogEntry T)
    pub delivered : s'.delivered ≡ s.delivered ++ more

  Advances-same :
      (s s' : Shared T)
      → s'.log ≡ s.log
      → s'.commited_index ≡ s.commited_index
      → s'.delivered ≡ s.delivered
      → IsCommitted s
      → Advances s s'
  Advances-same s s' log commit delivered h = record {
    commited = record {
      within = rw (log, commit) h.within;
      delivered = rw (log, commit) (delivered ∙ h.delivered);
    };
    more = [];
    delivered = delivered ∙ sym (append-nil s.delivered);
  }

  pub Advances-refl : (s : Shared T) → IsCommitted s → Advances s s
  Advances-refl s h = Advances-same s s refl refl refl h

  -- The log grows at its end, and the commit index moves up to `k`.
  Advances-moved :
      (s s' : Shared T) (more : List (LogEntry T)) (k : LogIndex)
      → s.commited_index ≤ k
      → k ≤ length s'.log
      → s'.log ≡ s.log ++ more
      → s'.commited_index ≡ k
      → s'.delivered ≡ s.delivered ++ take (k - s.commited_index) (drop s.commited_index s'.log)
      → IsCommitted s
      → Advances s s'
  Advances-moved s s' more k forwards inside log commit delivered h =
      let c = s.commited_index in
      let old : take c s.log ≡ take c s'.log =
        sym (take-append c s.log more h.within) ∙ ap (take c) (sym log) in
      record {
        commited = record {
          within = rw commit inside;
          delivered =
              delivered
              ∙ ap (λ d. d ++ take (k - c) (drop c s'.log)) (h.delivered ∙ old)
              ∙ take-take-drop c k s'.log forwards
              ∙ ap (λ i. take i s'.log) (sym commit);
        };
        more = take (k - c) (drop c s'.log);
        delivered = delivered;
      }

  pub append_entry-Advances :
      (v : T) (r : Raft T) → IsCommitted r.shared → Advances r.shared (append_entry v r).shared
  unfolding append_entry
  append_entry-Advances v r h = elim (Bool-cases (role_eq r.node_type leader)) [
    | inr other ↦ rw other (Advances-refl r.shared h)
    | inl leads ↦
        let more : List (LogEntry T) = record { value = v; term = r.node_term } ∷ [] in
        rw leads (record {
          commited = record {
            within = omega (arith, h.within, length-append r.log more);
            delivered = h.delivered ∙ sym (take-append r.commited_index r.log more h.within);
          };
          more = [];
          delivered = sym (append-nil r.delivered);
        })
  ]

  append_entries-Advances :
      (node_id : NodeId) (t : Timer) (req : AppendEntriesRequest T) (s : Shared T)
      (resp : AppendEntriesResponse)
      → (append_entries node_id t req s).0 ≡ done resp
      → length s.log < usize_mod
      → ReachesEnd (append_entries_rpc req) s
      → IsCommitted s
      → Advances s (append_entries node_id t req s).1
  append_entries-Advances node_id t req s resp e small (reaches, word) h =
      elim (append_entries_returns node_id t req s small e) [
        | inr same ↦ rw same (Advances-refl s h)
        | inl takes ↦
            let s' = (append_entries node_id t req s).1 in
            let has : HasAppended req s s' = Takes-HasAppended node_id t req s small takes in
            let steps : (s.commited_index ≤ s'.commited_index)
                × (req.leader_commit - s.commited_index ≡ s'.commited_index - s.commited_index) =
              ground (arith, has.commit) in
            Advances-moved s s' req.entries s'.commited_index steps.0
              (taken_commit_bound node_id t req s small takes word reaches h.within)
              (append_at_end node_id t req s small takes word reaches) refl
              (has.delivered
                ∙ ap
                    (λ l.
                      s.delivered
                      ++ take (req.leader_commit - s.commited_index) (drop s.commited_index l))
                    (sym has.log)
                ∙ ap (λ n. s.delivered ++ take n (drop s.commited_index s'.log)) steps.1)
              h
      ]

  commit_to-Advances :
      (best : Option (LogIndex × ℕ)) (r : Raft T)
      → (commit_to r.commited_index best r).0 ≡ done tt
      → IsCommitted r.shared
      → Advances r.shared (commit_to r.commited_index best r).1.shared
  unfolding commit_to
  commit_to-Advances none r e h = Advances-refl r.shared h
  commit_to-Advances (some (k, n)) r e h = elim (dec_lt r.commited_index k) [
    | no level ↦ rw (le→ltb r.commited_index k (omega arith)) (Advances-refl r.shared h)
    | yes behind ↦ elim (dec_le (r.commited_index + (k - r.commited_index)) (length r.log)) [
      | yes inside ↦
          rw
            (
              lt→ltb r.commited_index k behind,
              deliver_range_done (k - r.commited_index) r.commited_index r.shared inside,
            )
            (Advances-moved r.shared _ [] k (omega arith) (omega (arith, behind, inside))
              (sym (append-nil r.log)) refl refl h)
      | no short ↦
          let stops : (commit_to r.commited_index (some (k, n)) r).0 ≡ panic = rw (
            lt→ltb r.commited_index k behind,
            deliver_range_panic (k - r.commited_index) r.commited_index r.shared (omega arith)
                (omega arith),
          ) in
          cc
    ]
  ]

  dispatch-Advances :
      (node_id : NodeId) (t : Timer) (req : RequestPattern T) (s : Shared T) (resp : Response)
      → (dispatch node_id t req s).0 ≡ done resp
      → length s.log < usize_mod
      → ReachesEnd req s
      → IsCommitted s
      → Advances s (dispatch node_id t req s).1
  unfolding dispatch
  dispatch-Advances node_id t (ping_rpc req) s resp e small reaches h = Advances-refl s h
  dispatch-Advances node_id t (request_vote_rpc req) s resp e small reaches h =
      elim (votes_or_stays node_id t req s.state) [
        | inl (voted, _) ↦ Advances-same s _ voted.same_log voted.same_commit refl h
        | inr same ↦ rw same (Advances-refl s h)
      ]
  dispatch-Advances node_id t (append_entries_rpc req) s resp e small reaches h =
      let (o, s') = append_entries node_id t req s in
      let (resp', returns) = answered o s' e in
      rw (appended-state o s')
        (append_entries-Advances node_id t req s resp' returns small reaches h)
    where
      answered :
          (o : Outcome AppendEntriesResponse) (s' : Shared T)
          → (continue o (λ r. pure (appended r)) s').0 ≡ done resp
          → (resp' : AppendEntriesResponse) × (o ≡ done resp')
      answered panic s' e = cc
      answered (done resp') s' e = (resp', refl)

  pub Step-Advances :
      {r r' : Raft T} → Step r r' → IsCommitted r.shared → Advances r.shared r'.shared
  unfolding transition_wrapper transition_to_term finish maybe_commit_log_entries
  Step-Advances (receives r t req resp e small reaches) h =
      dispatch-Advances r.node_id t req r.shared resp e small reaches h
  Step-Advances (heartbeats r net t t') h =
      let same = heartbeat-Reindexes net t t' r in
      Advances-same r.shared _ (ap (λ (p : PersistentState T). p.log) same.keeps.persistent)
        same.commit same.delivered h
  Step-Advances (commits r order e) h = elim (Bool-cases (role_eq r.node_type leader)) [
    | inr other ↦ rw other (Advances-refl r.shared h)
    | inl leads ↦ rw leads (commit_to-Advances _ r (rw leads at e) h)
  ]
  Step-Advances (stands r role n) h = Advances-same r.shared _ refl refl refl h
  Step-Advances (campaigns r net clock t) h =
      Advances-same r.shared _ (election_section-log net clock t r)
        (election_section-commited_index net clock t r) (election_section-delivered net clock t r) h
  Step-Advances (finishes r retry) h = Advances-same r.shared _ refl refl refl h
  Step-Advances (finishes r win) h = Advances-same r.shared _ refl refl refl h
  Step-Advances (finishes r (step_down term)) h = Advances-same r.shared _ refl refl refl h
  Step-Advances (persists r i) h = Advances-same r.shared _ refl refl refl h
  Step-Advances (ends_round r) h = Advances-same r.shared _ refl refl refl h

  pub new_from_config-IsCommitted :
      (t : Timer) (node_id : NodeId) (conns : List String) (addr : String) (p : PersistentState T)
      → IsCommitted (new_from_config t node_id conns addr p).shared
  unfolding new_from_config init_volatile
  new_from_config-IsCommitted t node_id conns addr p = record {
    within = omega arith;
    delivered = refl;
  }
