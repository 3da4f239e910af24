-- ===== src/Raft/Election/Votes.antt =====
-- What a won election rests on: a quorum of votes, each from a peer that granted it.
use mathlib.Core.Path.{subst}
use mathlib.Core.List.{append_assoc, append-nil}
use quaso.Prelude.{
  ℕ, suc, ◌≤◌, ◌≡◌, refl, sym, ap, ◌∙◌, String, Option, none, some, List, [], ◌∷◌, ◌++◌, arith, ltb,
  if◌then◌else◌, length, usize_add, Bool-cases, inl, inr,
}
use quaso.Prelude.Exec.{Exec, Outcome, done, panic, pure, continue}
use quaso.Raft.Data.{
  NodeId, Instant, Timer, ElectionVoteRequest, ElectionVoteResponse, request_vote_rpc,
}
use quaso.Raft.Client.{Bytes, Network, send}
use quaso.Raft.Node.{Raft, get_quorum_length}
use quaso.Raft.Election.{
  After, win, vote_request, stand, handle_vote, election_round, election_loop, election_section,
  handle_reply, lead_indices,
}

-- The vote in a response.
abbrev pub granted_by : Option ElectionVoteResponse → List NodeId
granted_by none = []
granted_by (some resp) = if resp.vote_granted then resp.node_id ∷ [] else []

module _ {T : Type 0} where
  abbrev pub vote_in : Network T → Outcome (Option Bytes) → List NodeId
  vote_in net panic = []
  vote_in net (done none) = []
  vote_in net (done (some resp)) = granted_by (net.vote_response resp)

  -- The votes of peers that are asked from round `i` on.
  unfoldable pub grants : Network T → ElectionVoteRequest → ℕ → List String → List NodeId
  grants net req i [] = []
  grants net req i (conn ∷ conns) =
      vote_in net (send net i (request_vote_rpc req) conn) ++ grants net req (suc i) conns

  -- Both maps of indices start anew.
  abbrev pub HasFreshIndices : Raft T → Type 0
  HasFreshIndices r =
      (r.next_index ≡ lead_indices (usize_add (length r.log) 1) r.connections [])
      × (r.match_index ≡ lead_indices 0 r.connections [])

  -- What the loop leaves alone, and what it does to the votes if it goes on or wins.
  pub record IsRound (quorum : ℕ) (votes : List NodeId) (r : Raft T) (o : Outcome (Option After))
      (r' : Raft T) : Type 0 where
    pub same_id : r'.node_id ≡ r.node_id
    pub same_term : r'.node_term ≡ r.node_term
    pub same_role : r'.node_type ≡ r.node_type
    pub same_log : r'.log ≡ r.log
    pub same_connections : r'.connections ≡ r.connections
    pub same_address : r'.listener_addr ≡ r.listener_addr
    pub same_commit : r'.commited_index ≡ r.commited_index
    pub same_delivered : r'.delivered ≡ r.delivered
    pub going_on : o ≡ done none → r'.votes_recieved ≡ r.votes_recieved ++ votes
    pub won :
        o ≡ done (some win)
        → (r'.votes_recieved ≡ r.votes_recieved ++ votes)
          × (quorum ≤ length r'.votes_recieved)
          × HasFreshIndices r'

  handle_vote-IsRound :
      (quorum : ℕ) (resp : Option ElectionVoteResponse) (r : Raft T)
      → IsRound quorum
          (granted_by resp)
          r
          (handle_vote quorum resp r).0
          (handle_vote quorum resp r).1
  unfolding handle_vote
  handle_vote-IsRound quorum none r = ground (arith, append-nil r.votes_recieved)
  handle_vote-IsRound quorum (some resp) r = ground (arith, append-nil r.votes_recieved)

  reply-IsRound :
      (net : Network T) (quorum : ℕ) (o : Outcome (Option Bytes)) (r : Raft T)
      → IsRound quorum
          (vote_in net o)
          r
          (continue o (handle_reply net quorum) r).0
          (continue o (handle_reply net quorum) r).1
  unfolding handle_reply
  reply-IsRound net quorum panic r = ground (arith, append-nil r.votes_recieved)
  reply-IsRound net quorum (done none) r = ground (arith, append-nil r.votes_recieved)
  reply-IsRound net quorum (done (some resp)) r =
      handle_vote-IsRound quorum (net.vote_response resp) r

  election_round-IsRound :
      (net : Network T) (clock : ℕ → Instant) (req : ElectionVoteRequest) (quorum i : ℕ)
      (conn : String) (r : Raft T)
      → let (o, r') = election_round net clock req quorum i conn r in
        IsRound quorum (vote_in net (send net i (request_vote_rpc req) conn)) r o r'
  unfolding election_round
  election_round-IsRound net clock req quorum i conn r =
      elim (Bool-cases (ltb r.election_timeout (clock i))) [
        | inl late ↦ rw late (ground arith)
        | inr early ↦ rw early (reply-IsRound net quorum (send net i (request_vote_rpc req) conn) r)
      ]

  -- The same for the loop: a win may leave peers unasked.
  pub record IsLoop (quorum : ℕ) (votes : List NodeId) (r : Raft T) (o : Outcome (Option After))
      (r' : Raft T) : Type 0 where
    pub same_id : r'.node_id ≡ r.node_id
    pub same_term : r'.node_term ≡ r.node_term
    pub same_role : r'.node_type ≡ r.node_type
    pub same_log : r'.log ≡ r.log
    pub same_connections : r'.connections ≡ r.connections
    pub same_address : r'.listener_addr ≡ r.listener_addr
    pub same_commit : r'.commited_index ≡ r.commited_index
    pub same_delivered : r'.delivered ≡ r.delivered
    pub won :
        o ≡ done (some win)
        → (counted : List NodeId) × (unasked : List NodeId) × (votes ≡ counted ++ unasked)
          × (r'.votes_recieved ≡ r.votes_recieved ++ counted)
          × (quorum ≤ length r'.votes_recieved)
          × HasFreshIndices r'

  IsLoop-step :
      (quorum : ℕ) (v w : List NodeId) (rest : Exec (Raft T) (Option After)) (r : Raft T)
      (o : Outcome (Option After)) (r' : Raft T)
      → IsRound quorum v r o r'
      → IsLoop quorum w r' (rest r').0 (rest r').1
      → let (o', r'') =
          continue o (λ after. elim after [ some a ↦ pure (some a) | none ↦ rest ]) r' in
        IsLoop quorum (v ++ w) r o' r''
  IsLoop-step quorum v w rest r panic r' h k = record {
    same_id = h.same_id;
    same_term = h.same_term;
    same_role = h.same_role;
    same_log = h.same_log;
    same_connections = h.same_connections;
    same_address = h.same_address;
    same_commit = h.same_commit;
    same_delivered = h.same_delivered;
    won = λ e. cc;
  }
  IsLoop-step quorum v w rest r (done (some a)) r' h k = record {
    same_id = h.same_id;
    same_term = h.same_term;
    same_role = h.same_role;
    same_log = h.same_log;
    same_connections = h.same_connections;
    same_address = h.same_address;
    same_commit = h.same_commit;
    same_delivered = h.same_delivered;
    won = λ e. (v, w, refl, (h.won e).0, (h.won e).1, (h.won e).2);
  }
  IsLoop-step quorum v w rest r (done none) r' h k = record {
    same_id = k.same_id ∙ h.same_id;
    same_term = k.same_term ∙ h.same_term;
    same_role = k.same_role ∙ h.same_role;
    same_log = k.same_log ∙ h.same_log;
    same_connections = k.same_connections ∙ h.same_connections;
    same_address = k.same_address ∙ h.same_address;
    same_commit = k.same_commit ∙ h.same_commit;
    same_delivered = k.same_delivered ∙ h.same_delivered;
    won = λ e.
        let (counted, unasked, split, votes, enough, fresh) = k.won e in
        (
          v ++ counted,
          unasked,
          ap (λ l. v ++ l) split ∙ sym (append_assoc v counted unasked),
          votes
              ∙ ap (λ l. l ++ counted) (h.going_on refl)
              ∙ append_assoc r.votes_recieved v counted,
          enough,
          fresh,
        );
  }

  election_loop-IsLoop :
      (net : Network T) (clock : ℕ → Instant) (req : ElectionVoteRequest) (quorum i : ℕ)
      (conns : List String) (r : Raft T)
      → let (o, r') = election_loop net clock req quorum i conns r in
        IsLoop quorum (grants net req i conns) r o r'
  unfolding election_loop grants
  election_loop-IsLoop net clock req quorum i [] r = record {
    same_id = refl;
    same_term = refl;
    same_role = refl;
    same_log = refl;
    same_connections = refl;
    same_address = refl;
    same_commit = refl;
    same_delivered = refl;
    won = λ e. cc;
  }
  election_loop-IsLoop net clock req quorum i (conn ∷ conns) r =
      let (o, r') = election_round net clock req quorum i conn r in
      IsLoop-step quorum (vote_in net (send net i (request_vote_rpc req) conn))
        (grants net req (suc i) conns) (election_loop net clock req quorum (suc i) conns) r o r'
        (election_round-IsRound net clock req quorum i conn r)
        (election_loop-IsLoop net clock req quorum (suc i) conns r')

module _ {T : Type 0} (net : Network T) (clock : ℕ → Instant) (t : Timer) (r : Raft T) where
  section-IsLoop :
      let s = stand t r in
      IsLoop
        (get_quorum_length s)
        (grants net (vote_request s) 0 s.connections)
        s
        (election_section net clock t r).0
        (election_section net clock t r).1
  unfolding election_section
  section-IsLoop =
      let s = stand t r in
      election_loop-IsLoop net clock (vote_request s) (get_quorum_length s) 0 s.connections s

  pub election_section-node_term : (election_section net clock t r).1.node_term ≡ r.node_term
  unfolding stand
  election_section-node_term = section-IsLoop.same_term

  pub election_section-node_id : (election_section net clock t r).1.node_id ≡ r.node_id
  unfolding stand
  election_section-node_id = section-IsLoop.same_id

  pub election_section-listener_addr :
      (election_section net clock t r).1.listener_addr ≡ r.listener_addr
  unfolding stand
  election_section-listener_addr = section-IsLoop.same_address

  pub election_section-log : (election_section net clock t r).1.log ≡ r.log
  unfolding stand
  election_section-log = section-IsLoop.same_log

  pub election_section-commited_index :
      (election_section net clock t r).1.commited_index ≡ r.commited_index
  unfolding stand
  election_section-commited_index = section-IsLoop.same_commit

  pub election_section-delivered : (election_section net clock t r).1.delivered ≡ r.delivered
  unfolding stand
  election_section-delivered = section-IsLoop.same_delivered

module _ {T : Type 0} (net : Network T) (clock : ℕ → Instant) (t : Timer) (r r' : Raft T) where
  -- A node that won has the votes of a quorum: its own first, and then votes that peers granted in
  -- answer to its request, in the order in which they were asked.
  pub record HasWon : Type 0 where
    pub counted : List NodeId
    pub unasked : List NodeId
    pub answers : grants net (vote_request r) 0 r.connections ≡ counted ++ unasked
    pub votes : r'.votes_recieved ≡ r.node_id ∷ counted
    pub quorum : get_quorum_length r ≤ suc (length counted)
    pub term : r'.node_term ≡ r.node_term
    pub log : r'.log ≡ r.log
    pub connections : r'.connections ≡ r.connections
    pub indices : HasFreshIndices r'

  -- If the locked part of an election ends in a win, then the votes counted are the node's own
  -- and then granted votes from its peers' answers, in the order the peers were asked in and
  -- without a gap; they are a quorum; both maps of indices start anew; and the term, the log
  -- and the connections are those it stood with.
  pub win-HasWon : election_section net clock t r ≡ (done (some win), r') → HasWon
  unfolding election_section vote_request get_quorum_length
  win-HasWon e =
      let s = stand t r in
      let loop : IsLoop (get_quorum_length s) (grants net (vote_request s) 0 s.connections) s
          (election_section net clock t r).0 (election_section net clock t r).1 =
        election_loop-IsLoop net clock (vote_request s) (get_quorum_length s) 0 s.connections s in
      let (counted, unasked, split, votes, enough, fresh) =
        loop.won (ap (λ (x : Outcome (Option After) × Raft T). x.0) e) in
      let end : (election_section net clock t r).1 ≡ r' =
        ap (λ (x : Outcome (Option After) × Raft T). x.1) e in
      record {
        counted = counted;
        unasked = unasked;
        answers = split;
        votes = ap (λ (x : Raft T). x.votes_recieved) (sym end) ∙ votes;
        quorum = rw votes at enough;
        term = ap (λ (x : Raft T). x.node_term) (sym end) ∙ loop.same_term;
        log = ap (λ (x : Raft T). x.log) (sym end) ∙ loop.same_log;
        connections = ap (λ (x : Raft T). x.connections) (sym end) ∙ loop.same_connections;
        indices = subst HasFreshIndices end fresh;
      }
