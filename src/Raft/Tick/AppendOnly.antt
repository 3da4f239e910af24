-- ===== src/Raft/Tick/AppendOnly.antt =====
-- A leader only ever appends to its log, in all the rounds of its ticker.
use mathlib.Core.List.{append_assoc, append-nil}
use quaso.Prelude.{
  ◌+◌, ◌≡◌, refl, sym, ap, ◌∙◌, Bool, true, false, List, [], ◌∷◌, ◌++◌, ltb, if◌then◌else◌,
  Bool-cases, inl, inr,
}
use quaso.Prelude.Exec.{Exec, Outcome, done, panic, continue, pure, modify, ◌>>◌}
use quaso.Raft.Data.{
  LogEntry, Instant, leader, role_eq, PersistentState, Shared, set_leader_heartbeat,
}
use quaso.Raft.Node.{Raft, on_node_state}
use quaso.Raft.Heartbeat.{maybe_send_heartbeat}
use quaso.Raft.Commit.{maybe_commit_log_entries}
use quaso.Raft.Election.{maybe_transition_candidate}
use quaso.Raft.Persist.{Disk, Stored, on_file, set_persist_timeout, persist, try_persist_state}
use quaso.Raft.Tick.{Round, on_raft, free, tick_round, tick}
use quaso.Raft.Tick.Leader.{Keeps, heartbeat-Keeps, commit-Keeps}

module _ {T : Type 0} where
  -- The same term, vote and role, and a log with nothing changed and perhaps more at its end.
  pub record IsExtended (s s' : Shared T) : Type 0 where
    pub term : s'.node_term ≡ s.node_term
    pub vote : s'.voted_for ≡ s.voted_for
    pub role : s'.node_type ≡ s.node_type
    pub more : List (LogEntry T)
    pub log : s'.log ≡ s.log ++ more

  pub IsExtended-refl : (s : Shared T) → IsExtended s s
  IsExtended-refl s = record {
    term = refl;
    vote = refl;
    role = refl;
    more = [];
    log = sym (append-nil s.log);
  }

  same-IsExtended :
      (s s' : Shared T)
      → s'.persistent_state ≡ s.persistent_state
      → s'.node_type ≡ s.node_type
      → IsExtended s s'
  same-IsExtended s s' h role = record {
    term = ap (λ (p : PersistentState T). p.node_term) h;
    vote = ap (λ (p : PersistentState T). p.voted_for) h;
    role = role;
    more = [];
    log = ap (λ (p : PersistentState T). p.log) h ∙ sym (append-nil s.log);
  }

  IsExtended-trans : (s s' s'' : Shared T) → IsExtended s s' → IsExtended s' s'' → IsExtended s s''
  IsExtended-trans s s' s'' h k = record {
    term = k.term ∙ h.term;
    vote = k.vote ∙ h.vote;
    role = k.role ∙ h.role;
    more = h.more ++ k.more;
    log = k.log ∙ ap (λ l. l ++ k.more) h.log ∙ append_assoc s.log h.more k.more;
  }

  Keeps-IsExtended : (r r' : Raft T) → Keeps r r' → IsExtended r.shared r'.shared
  Keeps-IsExtended r r' h = same-IsExtended r.shared r'.shared h.persistent h.role

  -- What a step of a leader does.
  abbrev IsAppendOnly : Exec (Stored T) (Unit {0}) → Type 0
  IsAppendOnly m = (n : Stored T) → n.0.node_type ≡ leader → IsExtended n.0.shared (m n).1.0.shared

  then-IsAppendOnly :
      (m k : Exec (Stored T) (Unit {0})) → IsAppendOnly m → IsAppendOnly k → IsAppendOnly (m >> k)
  then-IsAppendOnly m k h g n leads = go (m n) (h n leads)
    where
      go :
          (x : Outcome (Unit {0}) × Stored T)
          → IsExtended n.0.shared x.1.0.shared
          → IsExtended n.0.shared (continue x.0 (λ _. k) x.1).1.0.shared
      go (panic, n') e = e
      go (done u, n') e =
          IsExtended-trans n.0.shared n'.0.shared (k n').1.0.shared e (g n' (e.role ∙ leads))

  -- Another task that appends at most, as the one that takes the clients' commands.
  abbrev pub OnlyAppends : (Shared T → Shared T) → Type 0
  OnlyAppends gap = (s : Shared T) → IsExtended s (gap s)

  pub record IsQuiet (x : Round T) : Type 0 where
    pub asleep : OnlyAppends x.asleep
    pub heartbeat : OnlyAppends x.before_heartbeat
    pub commit : OnlyAppends x.before_commit
    pub candidate : OnlyAppends x.before_candidate
    pub end : OnlyAppends x.at_end

  persist-IsAppendOnly :
      (disk : Disk T) (now later : Instant) → IsAppendOnly (try_persist_state disk now later)
  unfolding try_persist_state
  persist-IsAppendOnly disk now later (r, file) leads =
      elim (Bool-cases (ltb r.persist_timeout now)) [
        | inr early ↦ rw early (IsExtended-refl r.shared)
        | inl due ↦ rw due (
            then-IsAppendOnly (on_file (persist disk r.commited_index r.persistent_state))
              (modify (λ n. (set_persist_timeout (later + 5000) n.0, n.1)))
              (λ n _. IsExtended-refl n.0.shared) (λ n _. same-IsExtended n.0.shared _ refl refl)
              (r, file) leads)
      ]

  abbrev candidate_step : Round T → Exec (Stored T) (Unit {0})
  candidate_step x = on_raft (
      maybe_transition_candidate x.voters x.candidate_now x.clock x.election_timer
        x.before_transition x.before_election x.before_finish)

  candidate-IsAppendOnly : (x : Round T) → IsAppendOnly (candidate_step x)
  unfolding maybe_transition_candidate
  candidate-IsAppendOnly x (r, file) leads =
      rw (ap (λ y. role_eq y leader) leads) (IsExtended-refl r.shared)

  flag-IsAppendOnly : IsAppendOnly (on_raft (modify (on_node_state (set_leader_heartbeat false))))
  flag-IsAppendOnly n leads = same-IsExtended n.0.shared _ refl refl

  gap-IsAppendOnly : (gap : Shared T → Shared T) → OnlyAppends gap → IsAppendOnly (free gap)
  gap-IsAppendOnly gap h n leads = h n.0.shared

  -- The parts of a round, the last one first.
  abbrev last_part : Round T → Exec (Stored T) (Unit {0})
  last_part x = do free x.at_end; on_raft (modify (on_node_state (set_leader_heartbeat false)))

  abbrev election_part : Round T → Exec (Stored T) (Unit {0})
  election_part x = do free x.before_candidate; candidate_step x; last_part x

  abbrev commit_part : Round T → Exec (Stored T) (Unit {0})
  commit_part x = do
    free x.before_commit
    on_raft (maybe_commit_log_entries x.order)
    election_part x

  abbrev heartbeat_part : Round T → Exec (Stored T) (Unit {0})
  heartbeat_part x = do
    free x.before_heartbeat
    on_raft (maybe_send_heartbeat x.followers x.heartbeat_now x.heartbeat_later)
    commit_part x

  gap_then :
      (gap : Shared T → Shared T) (m k : Exec (Stored T) (Unit {0}))
      → OnlyAppends gap
      → IsAppendOnly m
      → IsAppendOnly k
      → IsAppendOnly (free gap >> (m >> k))
  gap_then gap m k h g e =
      then-IsAppendOnly (free gap) (m >> k) (gap-IsAppendOnly gap h) (then-IsAppendOnly m k g e)

  last-IsAppendOnly : (x : Round T) → IsQuiet x → IsAppendOnly (last_part x)
  last-IsAppendOnly x q =
      then-IsAppendOnly (free x.at_end)
        (on_raft (modify (on_node_state (set_leader_heartbeat false))))
        (gap-IsAppendOnly x.at_end q.end) flag-IsAppendOnly

  heartbeat-IsAppendOnly : (x : Round T) → IsQuiet x → IsAppendOnly (heartbeat_part x)
  heartbeat-IsAppendOnly x q =
      gap_then x.before_heartbeat
        (on_raft (maybe_send_heartbeat x.followers x.heartbeat_now x.heartbeat_later))
        (commit_part x) q.heartbeat
        (λ n _.
          Keeps-IsExtended n.0 _
            (heartbeat-Keeps x.followers x.heartbeat_now x.heartbeat_later n.0))
        (gap_then x.before_commit (on_raft (maybe_commit_log_entries x.order)) (election_part x)
          q.commit (λ n _. Keeps-IsExtended n.0 _ (commit-Keeps x.order n.0))
          (gap_then x.before_candidate (candidate_step x) (last_part x) q.candidate
            (candidate-IsAppendOnly x) (last-IsAppendOnly x q)))

  round-IsAppendOnly : (x : Round T) → IsQuiet x → IsAppendOnly (tick_round x)
  unfolding tick_round
  round-IsAppendOnly x q =
      gap_then x.asleep (try_persist_state x.disk x.persist_now x.persist_later) (heartbeat_part x)
        q.asleep (persist-IsAppendOnly x.disk x.persist_now x.persist_later)
        (heartbeat-IsAppendOnly x q)

  unless_stopped :
      (b : Bool) (k : Exec (Stored T) (Unit {0})) (n : Stored T)
      → IsExtended n.0.shared (k n).1.0.shared
      → IsExtended n.0.shared ((if b then pure tt else k) n).1.0.shared
  unless_stopped true k n h = IsExtended-refl n.0.shared
  unless_stopped false k n h = h

  abbrev pub AllQuiet : List (Round T) → Type 0
  AllQuiet [] = Unit
  AllQuiet (x ∷ rounds) = IsQuiet x × AllQuiet rounds

  -- Over any number of rounds of the ticker on a leader, whatever the peers answer, the clocks
  -- show and the disk does, and also if a round panics: the node is still a leader with the
  -- same term and vote, and its log has the old one as its beginning, if the other tasks do no
  -- more than append while they hold the lock.
  pub leader_append_only :
      (rounds : List (Round T)) (n : Stored T)
      → AllQuiet rounds
      → n.0.node_type ≡ leader
      → IsExtended n.0.shared (tick rounds n).1.0.shared
  unfolding tick
  leader_append_only [] n q leads = IsExtended-refl n.0.shared
  leader_append_only (x ∷ rounds) n q leads =
      unless_stopped n.0.stopped (tick_round x >> tick rounds) n (
        then-IsAppendOnly (tick_round x) (tick rounds) (round-IsAppendOnly x q.0)
          (λ n' leads'. leader_append_only rounds n' q.1 leads') n leads)
