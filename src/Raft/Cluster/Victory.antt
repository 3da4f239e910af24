-- ===== src/Raft/Cluster/Victory.antt =====
-- A candidate that wins is elected, if its peers answer with votes that they gave.
use quaso.Prelude.{
  In-All, IsDistinct, In, In-append, In-append_left, ℕ, suc, ◌≡◌, refl, sym, ◌⊎◌, inl, inr, String,
  Option, none, some, List, [], ◌∷◌, map, arith, length, Bool-cases,
}
use mathlib.Core.Path.{subst}
use quaso.Prelude.Exec.{Outcome, done, panic}
use quaso.Raft.Data.{
  NodeId, Instant, Timer, ElectionVoteRequest, ElectionVoteResponse, request_vote_rpc,
}
use quaso.Raft.Client.{Bytes, Network, send}
use quaso.Raft.Node.{Raft, get_quorum_length}
use quaso.Raft.Election.{win, vote_request, election_section}
use quaso.Raft.Election.Votes.{granted_by, vote_in, grants, HasWon, win-HasWon}
use quaso.Raft.Cluster.{Life, IsElected}
use quaso.Raft.Cluster.Majority.{one_leader}
use quaso.Raft.Cluster.Pigeonhole.{IsDistinct-left}

granted_by-short :
    (o : Option ElectionVoteResponse)
    → (granted_by o ≡ []) ⊎ ((v : NodeId) × (granted_by o ≡ v ∷ []))
granted_by-short none = inl refl
granted_by-short (some resp) = elim (Bool-cases resp.vote_granted) [
  | inl granted ↦ inr (resp.node_id, rw granted)
  | inr refused ↦ inl (rw refused)
]

-- The peers' votes, with the node that stands behind each address.
module _ {T : Type 0} (net : Network T) (id_of : String → NodeId) (req : ElectionVoteRequest)
    (named : (i : ℕ) (conn : String) (v : NodeId)
      → In v (vote_in net (send net i (request_vote_rpc req) conn))
      → v ≡ id_of conn) where
  vote_in-short :
      (o : Outcome (Option Bytes))
      → (vote_in net o ≡ []) ⊎ ((v : NodeId) × (vote_in net o ≡ v ∷ []))
  vote_in-short panic = inl refl
  vote_in-short (done none) = inl refl
  vote_in-short (done (some b)) = granted_by-short (net.vote_response b)

  grants-inside :
      (i : ℕ) (conns : List String) (v : NodeId)
      → In v (grants net req i conns)
      → In v (map id_of conns)
  unfolding grants
  grants-inside i [] v h = h
  grants-inside i (conn ∷ conns) v h =
      elim (In-append v (vote_in net (send net i (request_vote_rpc req) conn))
        (grants net req (suc i) conns) h) [
          | inl here ↦ inl (named i conn v here)
          | inr later ↦ inr (grants-inside (suc i) conns v later)
        ]

  grants-IsDistinct :
      (i : ℕ) (conns : List String)
      → IsDistinct (map id_of conns)
      → IsDistinct (grants net req i conns)
  unfolding grants
  grants-IsDistinct i [] h = tt
  grants-IsDistinct i (conn ∷ conns) (out, h) =
      let o = send net i (request_vote_rpc req) conn in
      let rest = grants-IsDistinct (suc i) conns h in
      elim (vote_in-short o) [
        | inl nobody ↦ rw nobody rest
        | inr (v, one) ↦
            let name : v ≡ id_of conn = named i conn v (rw one (inl refl)) in
            rw one (λ j. out (rw name at (grants-inside (suc i) conns v j)), rest)
      ]

  grants-given :
      (P : NodeId → Type 0) (i : ℕ) (conns : List String) (v : NodeId)
      → ((i : ℕ) (conn : String) (v : NodeId)
          → In v (vote_in net (send net i (request_vote_rpc req) conn))
          → P v)
      → In v (grants net req i conns)
      → P v
  unfolding grants
  grants-given P i [] v given h = absurd h
  grants-given P i (conn ∷ conns) v given h =
      elim (In-append v (vote_in net (send net i (request_vote_rpc req) conn))
        (grants net req (suc i) conns) h) [
          | inl here ↦ given i conn v here
          | inr later ↦ grants-given P (suc i) conns v given later
        ]

-- Every vote that a peer answers with is its own, and was given.
pub record IsHonest {T : Type 0} (net : Network T) (id_of : String → NodeId)
    (life : NodeId → Life T) (req : ElectionVoteRequest) : Type 0 where
  pub named :
      (i : ℕ) (conn : String) (v : NodeId)
      → In v (vote_in net (send net i (request_vote_rpc req) conn))
      → v ≡ id_of conn
  pub given :
      (i : ℕ) (conn : String) (v : NodeId)
      → In v (vote_in net (send net i (request_vote_rpc req) conn))
      → In (req.candidate_id, req.term) (life v).ballots

-- The node `r` wins an election among the members.
pub record Victory {T : Type 0} (members : List NodeId) (life : NodeId → Life T) (r : Raft T)
    : Type 0 where
  pub net : Network T
  pub clock : ℕ → Instant
  pub timer : Timer
  pub after : Raft T
  pub won : election_section net clock timer r ≡ (done (some win), after)
  pub id_of : String → NodeId
  pub honest : IsHonest net id_of life (vote_request r)
  pub own : In (r.node_id, r.node_term) (life r.node_id).ballots
  pub distinct : IsDistinct (r.node_id ∷ map id_of r.connections)
  pub known : (v : NodeId) → In v (r.node_id ∷ map id_of r.connections) → In v members
  pub size : length members ≡ suc (length r.connections)

module _ {T : Type 0} (members : List NodeId) (life : NodeId → Life T) where
  Victory-IsElected :
      (r : Raft T) → Victory members life r → IsElected members life r.node_id r.node_term
  unfolding vote_request get_quorum_length
  Victory-IsElected r v =
      let h : HasWon v.net v.clock v.timer r v.after =
        win-HasWon v.net v.clock v.timer r v.after v.won in
      let req = vote_request r in
      let all : List NodeId = grants v.net req 0 r.connections in
      let counted_in : (w : NodeId) → In w h.counted → In w all =
        λ w i. subst (In w) (sym h.answers) (In-append_left w h.counted h.unasked i) in
      let inside : (w : NodeId) → In w all → In w (map v.id_of r.connections) =
        λ w i. grants-inside v.net v.id_of req v.honest.named 0 r.connections w i in
      let apart : IsDistinct all =
        grants-IsDistinct v.net v.id_of req v.honest.named 0 r.connections v.distinct.1 in
      record {
        voters = r.node_id ∷ h.counted;
        distinct = (
          λ i. v.distinct.0 (inside r.node_id (counted_in r.node_id i)),
          IsDistinct-left h.counted h.unasked (subst IsDistinct h.answers apart),
        );
        known = (
          v.known r.node_id (inl refl),
          In-All _ h.counted (λ w i. v.known w (inr (inside w (counted_in w i)))),
        );
        quorum = omega (arith, h.quorum, v.size);
        voted = (
          v.own,
          In-All _ h.counted (λ w i.
              grants-given v.net v.id_of req v.honest.named
                (λ w. In (r.node_id, r.node_term) (life w).ballots) 0 r.connections w v.honest.given
                (counted_in w i)),
        );
      }

  -- Two nodes that each win the locked part of an election in the same term are the same node.
  -- Every member has one history from its start on, in which every AppendEntries that it takes
  -- is of the node's term or a later one, nothing takes its term back, and other tasks only
  -- append between its transition and its election; the votes a winner counts, its own
  -- included, are votes that the members give in those histories, one from each; and a
  -- candidate's peers are the other members.
  pub one_leader_per_term :
      (r q : Raft T)
      → Victory members life r
      → Victory members life q
      → r.node_term ≡ q.node_term
      → r.node_id ≡ q.node_id
  one_leader_per_term r q v w same =
      one_leader members life r.node_id q.node_id r.node_term (Victory-IsElected r v)
        (subst (IsElected members life q.node_id) (sym same) (Victory-IsElected q w))
