-- ===== src/Raft/History.antt =====
-- What happens to a node from its start on, as a relation between a node, the votes that a step
-- gives away, and the node afterwards: the handlers of rpc.rs, and the elections of state.rs.
pub mod SingleVote
use quaso.Prelude.{ℕ, ◌+◌, ◌<◌, ◌≤◌, ◌≡◌, Option, none, some, List, [], ◌∷◌, ◌++◌, u32_mod}
use quaso.Prelude.Exec.{Outcome, done, panic}
use quaso.Raft.Data.{NodeId, NodeTerm, Instant, State, Shared, Timer, RequestPattern, candidate}
use quaso.Raft.Client.{Network}
use quaso.Raft.Node.{Raft, transition_wrapper}
use quaso.Raft.Election.{After, retry, win, step_down, between, election_section, finish}
use quaso.Raft.Server.{dispatch}
use quaso.Raft.Server.Ballots.{cast, IsCurrent}
use quaso.Raft.Tick.AppendOnly.{IsExtended, OnlyAppends}

-- A vote: the candidate, and the term that it is for.
abbrev pub Ballot : Type 0
Ballot = NodeId × NodeTerm

module _ {T : Type 0} where
  -- The candidate's own vote counts if it wins.
  abbrev pub own_ballot : Outcome (Option After) × Raft T → List Ballot
  own_ballot (done (some win), r) = (r.node_id, r.node_term) ∷ []
  own_ballot _ = []

  -- The node that stands: `transition_wrapper(Candidate, 1)`, and what happens until the lock is
  -- taken again.
  abbrev pub standing : (Shared T → Shared T) → Raft T → Raft T
  standing gap r = between gap (transition_wrapper candidate 1 r)

  -- The methods called once the lock is released do not go back to an older term.
  abbrev pub IsForward : After → Raft T → Type 0
  IsForward retry r = r.node_term + 1 < u32_mod
  IsForward win r = r.node_term < u32_mod
  IsForward (step_down term) r = r.node_term ≤ term

  pub data Step : Raft T → List Ballot → Raft T → Type 0 where
    receives :
        (r : Raft T) (t : Timer) (req : RequestPattern T)
        → IsCurrent req r.shared
        → Step r
            (cast (dispatch r.node_id t req r.shared).0 req [])
            (record r { shared = (dispatch r.node_id t req r.shared).1 })
    campaigns :
        (r : Raft T) (net : Network T) (clock : ℕ → Instant) (t : Timer) (gap : Shared T → Shared T)
        → r.node_term + 1 < u32_mod
        → OnlyAppends gap
        → Step r
            (own_ballot (election_section net clock t (standing gap r)))
            (election_section net clock t (standing gap r)).1
    finishes : (r : Raft T) (after : After) → IsForward after r → Step r [] (finish after r)
    works : (r r' : Raft T) → r'.node_id ≡ r.node_id → IsExtended r.shared r'.shared → Step r [] r'

  pub data History : Raft T → List Ballot → Raft T → Type 0 where
    here : {r : Raft T} → History r [] r
    next :
        {r r' r'' : Raft T} {bs cs : List Ballot}
        → Step r bs r'
        → History r' cs r''
        → History r (bs ++ cs) r''
