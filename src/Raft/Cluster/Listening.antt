-- ===== src/Raft/Cluster/Listening.antt =====
-- An election whose votes come from the listeners of the other nodes, each at a moment of its own
-- history.
mod Tests
use mathlib.Core.Path.{subst}
use quaso.Prelude.{
  In, In-append, In-append_left, In-append_right, IsDistinct, ℕ, suc, ◌+◌, ◌<◌, ◌≡◌, refl, sym, ap,
  ◌∙◌, ◌⊎◌, inl, inr, String, Bool, true, false, Option, none, some, List, [], ◌∷◌, ◌++◌, map,
  length, if◌then◌else◌, Bool-cases, u32_mod,
}
use quaso.Prelude.Exec.{Outcome, done, panic}
use quaso.Raft.Data.{
  NodeId, Instant, State, ElectionVoteResponse, Shared, Timer, ElectionVoteRequest, RequestPattern,
  request_vote_rpc, candidate,
}
use quaso.Raft.Client.{Bytes, Peer, Network, send_bytes, send}
use quaso.Raft.Node.{Raft, transition_wrapper}
use quaso.Raft.Vote.{request_vote}
use quaso.Raft.Vote.Grant.{votes_or_stays}
use quaso.Raft.Election.{After, win, vote_request, election_section}
use quaso.Raft.Election.Votes.{
  vote_in, granted_by, election_section-node_id, election_section-node_term,
}
use quaso.Raft.Server.{Response, vote, dispatch, serve}
use quaso.Raft.Server.Ballots.{IsCurrent, cast}
use quaso.Raft.Tick.AppendOnly.{OnlyAppends}
use quaso.Raft.History.{
  Ballot, Step, History, receives, campaigns, here, next, own_ballot, standing,
}
use quaso.Raft.History.SingleVote.{transition_wrapper-node_term}
use quaso.Raft.Broadcast.{Codec, IsCodec, reply}
use quaso.Raft.Cluster.{Life}
use quaso.Raft.Cluster.Victory.{IsHonest, Victory, one_leader_per_term}

module _ {T : Type 0} where
  -- A history with a step in it.
  pub record Passes (life : Life T) {q q' : Raft T} {cs : List Ballot} (step : Step q cs q')
      : Type 0 where
    pub earlier : List Ballot
    pub later : List Ballot
    pub before : History life.start earlier q
    pub after : History q' later life.end
    pub whole : life.ballots ≡ earlier ++ (cs ++ later)

  -- The votes of a step are among those of the history.
  Passes-In :
      (life : Life T) {q q' : Raft T} {cs : List Ballot} (step : Step q cs q') (b : Ballot)
      → Passes life step
      → In b cs
      → In b life.ballots
  Passes-In life {cs = cs} step b p h =
      subst (In b) (sym p.whole)
        (In-append_right b p.earlier (cs ++ p.later) (In-append_left b cs p.later h))

  -- A connection of an election: refused, or to the listener of a node with this address, whose
  -- answer may be lost.
  pub data IsAnswer (codec : Codec T) (id : NodeId) (life : Life T) (req : RequestPattern T)
      : Option Peer → Type 0 where
    refused : IsAnswer codec id life req none
    lost :
        (peer : Peer)
        → peer.answer (codec.encode req) ≡ none
        → IsAnswer codec id life req (some peer)
    served :
        (peer : Peer) (r : Raft T) (t : Timer) (current : IsCurrent req r.shared)
        → r.node_id ≡ id
        → Passes life (receives r t req current)
        → peer.answer (codec.encode req)
          ≡ some (reply codec (serve codec.decode r.node_id t (codec.encode req) r.shared).0)
        → IsAnswer codec id life req (some peer)

  pub record IsListening (codec : Codec T) (net : Network T) (id_of : String → NodeId)
      (life : NodeId → Life T) (req : RequestPattern T) : Type 0 where
    pub serialize : net.serialize req ≡ some (codec.encode req)
    pub response : (b : Bytes) → net.vote_response b ≡ codec.vote_response b
    pub connect :
        (i : ℕ) (conn : String)
        → IsAnswer codec (id_of conn) (life (id_of conn)) req (net.connect i conn)

  module _ (codec : Codec T) (lawful : IsCodec codec) (req : ElectionVoteRequest) (net : Network T)
      (response : (b : Bytes) → net.vote_response b ≡ codec.vote_response b) where
    -- What a candidate reads of a listener's answer.
    vote_in-serve :
        (r : Raft T) (t : Timer)
        → let bytes = codec.encode (request_vote_rpc req) in
          vote_in net (done (some (reply codec (serve codec.decode r.node_id t bytes r.shared).0)))
          ≡ granted_by (some (request_vote r.node_id t req r.state).0)
    unfolding serve dispatch
    vote_in-serve r t =
        let (b, bs, e) = lawful.some_bytes (request_vote_rpc req) in
        let decoded : codec.decode (b ∷ bs) ≡ some (request_vote_rpc req) =
          ap codec.decode (sym e) ∙ lawful.request (request_vote_rpc req) in
        let resp = (request_vote r.node_id t req r.state).0 in
        rw (e, decoded)
          (ap granted_by (response (codec.encode_response (vote resp)) ∙ lawful.ballot resp))

  -- A vote that is read is the listener's, and it gives it in this step.
  granted_by-request_vote :
      (r : Raft T) (t : Timer) (req : ElectionVoteRequest) (v : NodeId)
      → In v (granted_by (some (request_vote r.node_id t req r.state).0))
      → (v ≡ r.node_id)
        × In
            (req.candidate_id, req.term)
            (cast {T = T}
              (dispatch r.node_id t (request_vote_rpc req) r.shared).0
              (request_vote_rpc req)
              [])
  unfolding dispatch
  granted_by-request_vote r t req v h =
      let answered = request_vote r.node_id t req r.state in
      elim (votes_or_stays r.node_id t req r.state) [
        | inl (voted, resp) ↦
            let granted : answered.0.vote_granted ≡ true =
              ap (λ (x : ElectionVoteResponse). x.vote_granted) resp in
            let term : answered.0.term ≡ req.term =
              ap (λ (x : ElectionVoteResponse). x.term) resp ∙ voted.term in
            let name : answered.0.node_id ≡ r.node_id =
              ap (λ (x : ElectionVoteResponse). x.node_id) resp in
            elim (rw granted at h) [
              | inl mine ↦
                  (mine ∙ name, rw granted (inl (ap (λ n. (req.candidate_id, n)) (sym term))))
              | inr nobody ↦ absurd nobody
            ]
        | inr same ↦
            let refused : answered.0.vote_granted ≡ false =
              ap (λ (x : ElectionVoteResponse × State T). x.0.vote_granted) same in
            absurd (rw refused at h)
      ]

  module _ (codec : Codec T) (lawful : IsCodec codec) (net : Network T) (id_of : String → NodeId)
      (life : NodeId → Life T) (req : ElectionVoteRequest)
      (listening : IsListening codec net id_of life (request_vote_rpc req)) where
    -- What holds of a vote that comes over a connection.
    vote_in-answer :
        (conn : String) (v : NodeId) (peer : Option Peer)
        → IsAnswer codec (id_of conn) (life (id_of conn)) (request_vote_rpc req) peer
        → In v (vote_in net (send_bytes (some (codec.encode (request_vote_rpc req))) peer))
        → (v ≡ id_of conn) × In (req.candidate_id, req.term) (life v).ballots
    unfolding send_bytes
    vote_in-answer conn v _ refused h = absurd h
    vote_in-answer conn v _ (lost peer e) h =
        elim (Bool-cases (peer.takes (codec.encode (request_vote_rpc req)))) [
          | inl takes ↦ absurd (rw (takes, e) at h)
          | inr broken ↦ absurd (rw broken at h)
        ]
    vote_in-answer conn v _ (served peer r t current name passes e) h =
        elim (Bool-cases (peer.takes (codec.encode (request_vote_rpc req)))) [
          | inr broken ↦ absurd (rw broken at h)
          | inl takes ↦
              let (mine, cast) = granted_by-request_vote r t req v (
                subst (In v) (vote_in-serve codec lawful req net listening.response r t)
                  (rw (takes, e) at h)) in
              let v_is : v ≡ id_of conn = mine ∙ name in
              (
                v_is,
                subst (λ w. In (req.candidate_id, req.term) (life w).ballots) (sym v_is)
                    (Passes-In (life (id_of conn)) (receives r t (request_vote_rpc req) current)
                      (req.candidate_id, req.term) passes cast),
              )
        ]

    vote_in-send :
        (i : ℕ) (conn : String) (v : NodeId)
        → In v (vote_in net (send net i (request_vote_rpc req) conn))
        → (v ≡ id_of conn) × In (req.candidate_id, req.term) (life v).ballots
    unfolding send
    vote_in-send i conn v h =
        vote_in-answer conn v (net.connect i conn) (listening.connect i conn)
          (rw listening.serialize at h)

    listening-IsHonest : IsHonest net id_of life req
    listening-IsHonest = record {
      named = λ i conn v h. (vote_in-send i conn v h).0;
      given = λ i conn v h. (vote_in-send i conn v h).1;
    }

  -- A node's own history has an election in it that it wins, and its peers are the listeners of the
  -- other members.
  pub record Elected (codec : Codec T) (members : List NodeId) (life : NodeId → Life T) (r : Raft T)
      : Type 0 where
    pub net : Network T
    pub clock : ℕ → Instant
    pub timer : Timer
    pub gap : Shared T → Shared T
    pub word : r.node_term + 1 < u32_mod
    pub quiet : OnlyAppends gap
    pub passes : Passes (life r.node_id) (campaigns r net clock timer gap word quiet)
    pub won : (election_section net clock timer (standing gap r)).0 ≡ done (some win)
    pub id_of : String → NodeId
    pub listening :
        IsListening codec net id_of life (request_vote_rpc (vote_request (standing gap r)))
    pub distinct : IsDistinct (r.node_id ∷ map id_of r.connections)
    pub known : (v : NodeId) → In v (r.node_id ∷ map id_of r.connections) → In v members
    pub size : length members ≡ suc (length r.connections)

  standing-node_term :
      (gap : Shared T → Shared T) (r : Raft T)
      → r.node_term + 1 < u32_mod
      → OnlyAppends gap
      → (standing gap r).node_term ≡ r.node_term + 1
  standing-node_term gap r word quiet =
      (quiet (transition_wrapper candidate 1 r).shared).term ∙ transition_wrapper-node_term r 1 word

  own_ballot-win :
      (o : Outcome (Option After)) (r : Raft T)
      → o ≡ done (some win)
      → own_ballot (o, r) ≡ (r.node_id, r.node_term) ∷ []
  own_ballot-win o r e = rw e refl

  module _ (codec : Codec T) (lawful : IsCodec codec) (members : List NodeId)
      (life : NodeId → Life T) where
    Elected-Victory :
        (r : Raft T) (e : Elected codec members life r) → Victory members life (standing e.gap r)
    unfolding transition_wrapper
    Elected-Victory r e =
        let s = standing e.gap r in
        let x = election_section e.net e.clock e.timer s in
        record {
          net = e.net;
          clock = e.clock;
          timer = e.timer;
          after = x.1;
          won = ap (λ o. (o, x.1)) e.won;
          id_of = e.id_of;
          honest = listening-IsHonest codec lawful e.net e.id_of life (vote_request s) e.listening;
          own =
              Passes-In (life r.node_id) (campaigns r e.net e.clock e.timer e.gap e.word e.quiet)
                (s.node_id, s.node_term) e.passes
                (rw (own_ballot-win x.0 x.1 e.won) (
                  inl (λ i. (
                    sym (election_section-node_id e.net e.clock e.timer s) i,
                    sym (election_section-node_term e.net e.clock e.timer s) i,
                  ))));
          distinct = e.distinct;
          known = e.known;
          size = e.size;
        }

    -- Two nodes that win elections in the same term, each after standing from the term before
    -- it, are the same node. A member's votes are those of one history from its start on, and a
    -- winner's election is a step of such a history of its own. A connection of the election is
    -- refused, or its answer is lost, or the answer is what the listener of the member at that
    -- address writes for the encoded request, at a step of that member's history; bincode gives
    -- back what it was given; a candidate's peers are the other members, each at one address.
    -- In the histories every AppendEntries that is taken is of the node's term or a later one,
    -- nothing takes a term back, terms stay below 2^32, and other tasks only append between a
    -- node's transition and its election.
    pub one_winner_per_term :
        (r q : Raft T)
        → Elected codec members life r
        → Elected codec members life q
        → r.node_term ≡ q.node_term
        → r.node_id ≡ q.node_id
    unfolding transition_wrapper
    one_winner_per_term r q e f same =
        one_leader_per_term members life (standing e.gap r) (standing f.gap q) (Elected-Victory r e)
          (Elected-Victory q f)
          (standing-node_term e.gap r e.word e.quiet
            ∙ ap (λ n. n + 1) same
            ∙ sym (standing-node_term f.gap q f.word f.quiet))
