-- ===== src/Raft/History/SingleVote.antt =====
-- In one term a node gives all its votes to one candidate, whatever happens to it.
use quaso.Prelude.{
  All, All-map, ℕ, ◌+◌, ◌<◌, ◌≡◌, refl, sym, ap, ◌∙◌, inl, inr, Option, none, some, List, [], ◌∷◌,
  ◌++◌, arith, Bool-cases, u32_mod,
}
use quaso.Prelude.Exec.{Outcome, done, panic, pure, continue}
use quaso.Raft.Data.{
  NodeId, NodeTerm, Instant, State, Shared, Timer, RequestPattern, AppendEntriesResponse, ping_rpc,
  append_entries_rpc, request_vote_rpc, candidate,
}
use quaso.Raft.Client.{Network}
use quaso.Raft.Vote.{request_vote}
use quaso.Raft.Append.{append_entries}
use quaso.Raft.Append.Vote.{KeepsVote, KeepsVote-refl}
use quaso.Raft.Node.{Raft, transition_wrapper}
use quaso.Raft.Election.{After, retry, win, step_down, election_section, finish}
use quaso.Raft.Election.Votes.{election_section-node_term, election_section-node_id}
use quaso.Raft.Election.OwnVote.{win-voted_for}
use quaso.Raft.Server.{appended, dispatch}
use quaso.Raft.Server.Ballots.{
  IsSingleVote, IsBound, IsCast, IsBound-back, IsCurrent, cast, request_vote-KeepsVote,
  request_vote-IsCast, append-KeepsVote,
}
use quaso.Raft.Tick.AppendOnly.{OnlyAppends}
use quaso.Raft.History.{
  Ballot, Step, History, receives, campaigns, finishes, works, here, next, own_ballot, standing,
  IsForward,
}

module _ {T : Type 0} where
  -- A step gives no vote and keeps the one there is, or it gives one.
  pub data IsFair (s : State T) (bs : List Ballot) (s' : State T) : Type 0 where
    silent : bs ≡ [] → KeepsVote s s' → IsFair s bs s'
    votes : (b : Ballot) → bs ≡ b ∷ [] → IsCast s s' b → IsFair s bs s'

  later-KeepsVote : (s s' : State T) → s.node_term < s'.node_term → KeepsVote s s'
  later-KeepsVote s s' h = record { term = omega arith; vote = λ e. absurd (omega arith) }

  IsCast-KeepsVote : (s s' : State T) (b : Ballot) → IsCast s s' b → KeepsVote s s'
  IsCast-KeepsVote s s' b h = record {
    term = omega (arith, h.before.later, h.term);
    vote = λ e v w. h.voted ∙ ap some (h.before.bound (sym h.term ∙ e) v w);
  }

  receives-IsFair :
      (node_id : NodeId) (t : Timer) (req : RequestPattern T) (s : Shared T)
      → IsCurrent req s
      → IsFair s.state (cast (dispatch node_id t req s).0 req []) (dispatch node_id t req s).1.state
  unfolding dispatch
  receives-IsFair node_id t (ping_rpc req) s h = silent refl (KeepsVote-refl s.state)
  receives-IsFair node_id t (append_entries_rpc req) s h =
      let (o, s') = append_entries node_id t req s in
      silent (no_ballot o s') (append-KeepsVote node_id t req s h)
    where
      no_ballot :
          (o : Outcome AppendEntriesResponse) (s' : Shared T)
          → cast (continue o (λ resp. pure (appended resp)) s').0 (append_entries_rpc req) [] ≡ []
      no_ballot panic s' = refl
      no_ballot (done resp) s' = refl
  receives-IsFair node_id t (request_vote_rpc req) s h =
      let resp = (request_vote node_id t req s.state).0 in
      elim (Bool-cases resp.vote_granted) [
        | inl granted ↦
            votes (req.candidate_id, resp.term) (rw granted)
              (request_vote-IsCast node_id t req s.state granted)
        | inr refused ↦ silent (rw refused) (request_vote-KeepsVote node_id t req s.state)
      ]

  pub transition_wrapper-node_term :
      (r : Raft T) (n : NodeTerm)
      → r.node_term + n < u32_mod
      → (transition_wrapper candidate n r).node_term ≡ r.node_term + n
  unfolding transition_wrapper
  transition_wrapper-node_term r n h = omega arith

  -- A candidate stands in a term that it has not been in.
  campaign_term :
      (r : Raft T) (net : Network T) (clock : ℕ → Instant) (t : Timer) (gap : Shared T → Shared T)
      → r.node_term + 1 < u32_mod
      → OnlyAppends gap
      → (election_section net clock t (standing gap r)).1.node_term ≡ r.node_term + 1
  campaign_term r net clock t gap word quiet =
      election_section-node_term net clock t (standing gap r)
      ∙ (quiet (transition_wrapper candidate 1 r).shared).term
      ∙ transition_wrapper-node_term r 1 word

  own_ballot-IsFair :
      (s : State T) (x : Outcome (Option After) × Raft T)
      → s.node_term < x.1.node_term
      → (x.0 ≡ done (some win) → x.1.voted_for ≡ some x.1.node_id)
      → IsFair s (own_ballot x) x.1.state
  own_ballot-IsFair s (panic, r) h w = silent refl (later-KeepsVote s r.state h)
  own_ballot-IsFair s (done none, r) h w = silent refl (later-KeepsVote s r.state h)
  own_ballot-IsFair s (done (some retry), r) h w = silent refl (later-KeepsVote s r.state h)
  own_ballot-IsFair s (done (some (step_down term)), r) h w =
      silent refl (later-KeepsVote s r.state h)
  own_ballot-IsFair s (done (some win), r) h w =
      votes (r.node_id, r.node_term) refl
        (record {
          before = record { later = omega arith; bound = λ e v _. absurd (omega arith) };
          term = refl;
          voted = w refl;
        })

  finish-KeepsVote :
      (r : Raft T) (after : After) → IsForward after r → KeepsVote r.state (finish after r).state
  unfolding finish
  finish-KeepsVote r retry h = record { term = omega arith; vote = λ e v w. w }
  finish-KeepsVote r win h = record { term = omega arith; vote = λ e v w. w }
  finish-KeepsVote r (step_down term) h = record { term = h; vote = λ e v w. w }

  Step-IsFair : {r r' : Raft T} {bs : List Ballot} → Step r bs r' → IsFair r.state bs r'.state
  Step-IsFair (receives r t req current) = receives-IsFair r.node_id t req r.shared current
  Step-IsFair (campaigns r net clock t gap word quiet) =
      let s = standing gap r in
      own_ballot-IsFair r.state (election_section net clock t s)
        (omega (arith, campaign_term r net clock t gap word quiet))
        (λ e.
          win-voted_for net clock t s e ∙ ap some (sym (election_section-node_id net clock t s)))
  Step-IsFair (finishes r after forward) = silent refl (finish-KeepsVote r after forward)
  Step-IsFair (works r r' same h) =
      silent refl (record { term = omega (arith, h.term); vote = λ e v w. h.vote ∙ w })

  fair-IsBound :
      {s s' : State T} {bs : List Ballot} (cs : List Ballot)
      → IsFair s bs s'
      → All (IsBound s') cs
      → All (IsBound s) (bs ++ cs)
  fair-IsBound cs (silent e k) h = rw e (All-map (IsBound-back k) cs h)
  fair-IsBound {s} {s'} cs (votes b e c) h =
      rw e (c.before, All-map (IsBound-back (IsCast-KeepsVote s s' b c)) cs h)

  History-IsBound : {r r' : Raft T} {bs : List Ballot} → History r bs r' → All (IsBound r.state) bs
  History-IsBound here = tt
  History-IsBound (next {cs = cs} step rest) =
      fair-IsBound cs (Step-IsFair step) (History-IsBound rest)

  fair-IsSingleVote :
      {s s' : State T} {bs : List Ballot} (cs : List Ballot)
      → IsFair s bs s'
      → All (IsBound s') cs
      → IsSingleVote cs
      → IsSingleVote (bs ++ cs)
  fair-IsSingleVote cs (silent e k) h single = rw e single
  fair-IsSingleVote cs (votes b e c) h single =
      rw e (All-map (λ d k same. k.bound (same ∙ sym c.term) b.0 c.voted) cs h, single)

  -- In a node's history any two votes for the same term are for the same candidate, the votes
  -- for itself in elections it wins included. The history is any sequence of requests taken by
  -- the listener, elections, what follows them, and work that extends the state; no request is
  -- an AppendEntries of an older term, what follows an election does not go back to one, terms
  -- stay below 2^32, and other tasks only append while an election has released the lock before
  -- it starts.
  pub History-IsSingleVote : {r r' : Raft T} {bs : List Ballot} → History r bs r' → IsSingleVote bs
  History-IsSingleVote here = tt
  History-IsSingleVote (next {cs = cs} step rest) =
      fair-IsSingleVote cs (Step-IsFair step) (History-IsBound rest) (History-IsSingleVote rest)
