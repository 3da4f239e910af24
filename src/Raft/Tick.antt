-- ===== src/Raft/Tick.antt =====
-- `Raft::tick` of raft/src/server/state.rs: what a node does of its own accord, round after round.
pub mod Leader
pub mod AppendOnly
mod Tests
use quaso.Prelude.{ℕ, Bool, false, List, [], ◌∷◌, if◌then◌else◌}
use quaso.Prelude.Exec.{Exec, Outcome, done, pure, gets, modify, ◌>>=◌, ◌>>◌}
use quaso.Raft.Data.{LogIndex, Instant, Timer, Shared, set_leader_heartbeat}
use quaso.Raft.Client.{Network}
use quaso.Raft.Node.{Raft, on_node_state}
use quaso.Raft.Heartbeat.{maybe_send_heartbeat}
use quaso.Raft.Commit.{maybe_commit_log_entries}
use quaso.Raft.Election.{between, maybe_transition_candidate}
use quaso.Raft.Persist.{Disk, Stored, try_persist_state}

-- What a round finds: the disk, the peers when heartbeats are sent and when votes are asked for,
-- the times that are read, the order of iteration of the commit, and what other tasks do to the
-- state whenever it is not locked.
pub record Round (T : Type 0) : Type 0 where
  pub disk : Disk T
  pub persist_now : Instant
  pub persist_later : Instant
  pub followers : Network T
  pub heartbeat_now : Timer
  pub heartbeat_later : Timer
  pub order : List (LogIndex × ℕ) → List (LogIndex × ℕ)
  pub voters : Network T
  pub candidate_now : Instant
  pub clock : ℕ → Instant
  pub election_timer : Timer
  pub asleep : Shared T → Shared T
  pub before_heartbeat : Shared T → Shared T
  pub before_commit : Shared T → Shared T
  pub before_candidate : Shared T → Shared T
  pub before_transition : Shared T → Shared T
  pub before_election : Shared T → Shared T
  pub before_finish : Shared T → Shared T
  pub at_end : Shared T → Shared T

module _ {T : Type 0} where
  abbrev pub on_raft : Exec (Raft T) (Unit {0}) → Exec (Stored T) (Unit {0})
  on_raft m (r, file) = let (o, r') = m r in (o, (r', file))

  -- The lock is free for a moment.
  abbrev pub free : (Shared T → Shared T) → Exec (Stored T) (Unit {0})
  free gap = on_raft (modify (between gap))

  unfoldable pub tick_round : Round T → Exec (Stored T) (Unit {0})
  tick_round x = do
    free x.asleep
    try_persist_state x.disk x.persist_now x.persist_later
    free x.before_heartbeat
    on_raft (maybe_send_heartbeat x.followers x.heartbeat_now x.heartbeat_later)
    free x.before_commit
    on_raft (maybe_commit_log_entries x.order)
    free x.before_candidate
    on_raft (
        maybe_transition_candidate x.voters x.candidate_now x.clock x.election_timer
          x.before_transition x.before_election x.before_finish)
    free x.at_end
    on_raft (modify (on_node_state (set_leader_heartbeat false)))

  unfoldable pub tick : List (Round T) → Exec (Stored T) (Unit {0})
  tick [] = pure tt
  tick (x ∷ rounds) = do
    stopped ← gets (λ n. n.0.stopped)
    if stopped then pure tt else do tick_round x; tick rounds
