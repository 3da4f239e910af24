-- ===== src/Raft/Server/DoubleVote.antt =====
-- A second vote in one term, once entries of a past term have taken the node back.
use quaso.Prelude.{◌≤◌, ◌⊎◌, ◌∙◌, some, ◌<◌, ◌≡◌, ◌≢◌, true, arith, length, last?, usize_mod}
use quaso.Raft.Data.{
  NodeId, leader, LogEntry, Shared, Timer, ElectionVoteRequest, AppendEntriesRequest,
}
use quaso.Raft.Vote.{request_vote}
use quaso.Raft.Vote.Grant.{grant_iff_MayVote, grant-HasVoted}
use quaso.Raft.Append.{append_entries}
use quaso.Raft.Append.Accept.{PrevFits}
use quaso.Raft.Append.Commit.{CommitFits}
use quaso.Raft.Append.Log.{term_goes_back}

-- A node that is no leader takes entries of a term before its own, which fit a log shorter than
-- 2^64, and then has a log with entries. Then any candidate of the node's former term whose log
-- is at least as up to date as that one gets its vote, whoever the node had voted for in that
-- term, and the vote is recorded in that term.
pub votes_again :
    {T : Type 0} (node_id : NodeId) (t t' : Timer) (old : AppendEntriesRequest T)
    (ask : ElectionVoteRequest) (s : Shared T) (last : LogEntry T)
    → length s.log < usize_mod
    → s.node_type ≢ leader
    → old.term < s.node_term
    → PrevFits s.log old
    → CommitFits old s.state
    → ask.term ≡ s.node_term
    → let after = (append_entries node_id t old s).1 in
      last? after.log ≡ some last
      → (last.term < ask.last_log_term)
        ⊎ (last.term ≡ ask.last_log_term) × (length after.log ≤ ask.last_log_index)
      → ((request_vote node_id t' ask after.state).0.vote_granted ≡ true)
        × ((request_vote node_id t' ask after.state).1.voted_for ≡ some ask.candidate_id)
        × ((request_vote node_id t' ask after.state).1.node_term ≡ s.node_term)
votes_again node_id t t' old ask s last small role older place commit same at_end up_to_date =
    let s' = (append_entries node_id t old s).1.state in
    let back : s'.node_term ≡ old.term =
      (term_goes_back node_id t old s small role older place commit).1 in
    let granted : (request_vote node_id t' ask s').0.vote_granted ≡ true =
      (grant_iff_MayVote node_id t' ask s').1 (record {
        not_behind = omega (arith, back);
        free = λ e. absurd (omega (arith, back, e));
        up_to_date = rw at_end up_to_date;
      }) in
    let has = grant-HasVoted node_id t' ask s' granted in (granted, has.voted, has.term ∙ same)
