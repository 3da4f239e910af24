-- ===== src/Raft/Tick/Leader.antt =====
-- What a leader's heartbeats and commits leave alone.
use quaso.Prelude.{
  ℕ, zero, suc, ◌-◌, Option-cases, ◌≡◌, refl, ap, ◌∙◌, String, Bool, true, false, Option, none,
  some, List, [], ◌∷◌, arith, ltb, Bool-cases, inl, inr, get_elem?, length,
}
use quaso.Prelude.Exec.{Exec, Outcome, expect, continue, continue-related}
use quaso.Raft.Data.{
  VolatileState, State, LogIndex, leader, role_eq, Shared, Timer, append_entries_rpc,
}
use quaso.Raft.Client.{Bytes, Network, send}
use quaso.Raft.Deliver as deliver
use quaso.Raft.Deliver.{deliver_range}
use quaso.Raft.Node.{Raft}
use quaso.Raft.Heartbeat.{
  record_answer, append_request, handle_answer, heartbeat_to, heartbeat_loop, record_self,
  maybe_send_heartbeat,
}
use quaso.Raft.Commit.{commit_to, maybe_commit_log_entries}

record_answer-role :
    (conn : String) (n : ℕ) (b : Bool) (v : VolatileState)
    → (record_answer conn n b v).node_type ≡ v.node_type
unfolding record_answer
record_answer-role conn n true v = refl
record_answer-role conn n false v = ground arith

record_answer-commited_index :
    (conn : String) (n : ℕ) (b : Bool) (v : VolatileState)
    → (record_answer conn n b v).commited_index ≡ v.commited_index
unfolding record_answer
record_answer-commited_index conn n true v = refl
record_answer-commited_index conn n false v = ground arith

module _ {T : Type 0} where
  -- The term, the vote and the log are the same, and so is the role.
  pub record Keeps (r r' : Raft T) : Type 0 where
    pub persistent : r'.persistent_state ≡ r.persistent_state
    pub role : r'.node_type ≡ r.node_type
    pub stopped : r'.stopped ≡ r.stopped

  Keeps-refl : (r : Raft T) → Keeps r r
  Keeps-refl r = record { persistent = refl; role = refl; stopped = refl }

  Keeps-trans : (r r' r'' : Raft T) → Keeps r r' → Keeps r' r'' → Keeps r r''
  Keeps-trans r r' r'' h k = record {
    persistent = k.persistent ∙ h.persistent;
    role = k.role ∙ h.role;
    stopped = k.stopped ∙ h.stopped;
  }

  -- Nor do the commit index and what is delivered change.
  pub record Reindexes (r r' : Raft T) : Type 0 where
    pub keeps : Keeps r r'
    pub commit : r'.commited_index ≡ r.commited_index
    pub delivered : r'.delivered ≡ r.delivered

  Reindexes-refl : (r : Raft T) → Reindexes r r
  Reindexes-refl r = record { keeps = Keeps-refl r; commit = refl; delivered = refl }

  Reindexes-trans : (r r' r'' : Raft T) → Reindexes r r' → Reindexes r' r'' → Reindexes r r''
  Reindexes-trans r r' r'' h k = record {
    keeps = Keeps-trans r r' r'' h.keeps k.keeps;
    commit = k.commit ∙ h.commit;
    delivered = k.delivered ∙ h.delivered;
  }

  Keeps-continue {ℓ} :
      {A : Type ℓ} (o : Outcome A) (f : A → Exec (Raft T) (Unit {0})) (r r' : Raft T)
      → Keeps r r'
      → ((a : A) → Keeps r' (f a r').1)
      → Keeps r (continue o f r').1
  Keeps-continue o f r r' h k = continue-related Keeps Keeps-trans o f r r' h k

  Reindexes-continue {ℓ} :
      {A : Type ℓ} (o : Outcome A) (f : A → Exec (Raft T) (Unit {0})) (r r' : Raft T)
      → Reindexes r r'
      → ((a : A) → Reindexes r' (f a r').1)
      → Reindexes r (continue o f r').1
  Reindexes-continue o f r r' h k = continue-related Reindexes Reindexes-trans o f r r' h k

  handle_answer-Reindexes :
      (net : Network T) (conn : String) (n : ℕ) (resp : Option Bytes) (r : Raft T)
      → Reindexes r (handle_answer net conn n resp r).1
  unfolding handle_answer
  handle_answer-Reindexes net conn n none r = Reindexes-refl r
  handle_answer-Reindexes net conn n (some resp) r =
      Reindexes-continue (expect (net.append_response resp)) _ r r (Reindexes-refl r) (λ de_resp.
        record {
          keeps = record {
            persistent = refl;
            role = record_answer-role conn n de_resp.success r.volatile_state;
            stopped = refl;
          };
          commit = record_answer-commited_index conn n de_resp.success r.volatile_state;
          delivered = refl;
        })

  heartbeat_to-Reindexes :
      (net : Network T) (i : ℕ) (conn : String) (r : Raft T)
      → Reindexes r (heartbeat_to net i conn r).1
  unfolding heartbeat_to
  heartbeat_to-Reindexes net i conn r =
      Reindexes-continue (append_request r.node_id conn r.state) _ r r (Reindexes-refl r) (λ req.
        Reindexes-continue (send net i (append_entries_rpc req) conn) _ r r (Reindexes-refl r)
          (λ resp. handle_answer-Reindexes net conn (length r.log) resp r))

  heartbeat_loop-Reindexes :
      (net : Network T) (i : ℕ) (conns : List String) (r : Raft T)
      → Reindexes r (heartbeat_loop net i conns r).1
  unfolding heartbeat_loop
  heartbeat_loop-Reindexes net i [] r = Reindexes-refl r
  heartbeat_loop-Reindexes net i (conn ∷ conns) r =
      let (o, r') = heartbeat_to net i conn r in
      Reindexes-continue o (λ _. heartbeat_loop net (suc i) conns) r r'
        (heartbeat_to-Reindexes net i conn r) (λ _. heartbeat_loop-Reindexes net (suc i) conns r')

  record_self-Reindexes : (t : Timer) (r : Raft T) → Reindexes r (record_self t r)
  unfolding record_self
  record_self-Reindexes t r = record {
    keeps = record { persistent = refl; role = refl; stopped = refl };
    commit = refl;
    delivered = refl;
  }

  pub heartbeat-Reindexes :
      (net : Network T) (t t' : Timer) (r : Raft T)
      → Reindexes r (maybe_send_heartbeat net t t' r).1
  unfolding maybe_send_heartbeat
  heartbeat-Reindexes net t t' r = elim (Bool-cases (role_eq r.node_type leader)) [
    | inr other ↦ rw other (Reindexes-refl r)
    | inl leads ↦ elim (Bool-cases (ltb t.now r.heartbeat_timeout)) [
      | inl early ↦ rw (leads, early) (Reindexes-refl r)
      | inr due ↦
          rw (leads, due)
            (let (o, r') = heartbeat_loop net 0 r.connections r in
              Reindexes-continue o _ r r' (heartbeat_loop-Reindexes net 0 r.connections r)
                (λ _. record_self-Reindexes t' r'))
    ]
  ]

  pub heartbeat-Keeps :
      (net : Network T) (t t' : Timer) (r : Raft T) → Keeps r (maybe_send_heartbeat net t t' r).1
  heartbeat-Keeps net t t' r = (heartbeat-Reindexes net t t' r).keeps

  deliver_range-state :
      (rounds : ℕ) (i : LogIndex) (s : Shared T) → (deliver_range rounds i s).1.state ≡ s.state
  unfolding deliver_range
  deliver_range-state zero i s = refl
  deliver_range-state (suc rounds) i s = elim (Option-cases (get_elem? s.log i)) [
    | inl out ↦ rw out
    | inr (e, at) ↦ rw at (deliver_range-state rounds (suc i) (deliver.send e s))
  ]

  commit_to-Keeps :
      (current : LogIndex) (best : Option (LogIndex × ℕ)) (r : Raft T)
      → Keeps r (commit_to current best r).1
  unfolding commit_to
  commit_to-Keeps current none r = Keeps-refl r
  commit_to-Keeps current (some (k, n)) r = elim (Bool-cases (ltb current k)) [
    | inr level ↦ rw level (Keeps-refl r)
    | inl behind ↦ rw behind (
        let (o, s) = deliver_range (k - current) current r.shared in
        let same : s.state ≡ r.state = deliver_range-state (k - current) current r.shared in
        Keeps-continue o _ r (record r { shared = s })
          (record {
            persistent = ap (λ (x : State T). x.persistent_state) same;
            role = ap (λ (x : State T). x.node_type) same;
            stopped = refl;
          })
          (λ _. record { persistent = refl; role = refl; stopped = refl }))
  ]

  pub commit-Keeps :
      (order : List (LogIndex × ℕ) → List (LogIndex × ℕ)) (r : Raft T)
      → Keeps r (maybe_commit_log_entries order r).1
  unfolding maybe_commit_log_entries
  commit-Keeps order r = elim (Bool-cases (role_eq r.node_type leader)) [
    | inr other ↦ rw other (Keeps-refl r)
    | inl leads ↦ rw leads (commit_to-Keeps r.commited_index _ r)
  ]
