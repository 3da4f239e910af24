-- ===== src/Raft/Cluster/Majority.antt =====
-- At most one candidate is elected in a term.
use quaso.Prelude.{All-In, In, ◌≡◌, sym, ap, ◌∙◌, inl, inr, List, [], ◌∷◌, arith}
use quaso.Raft.Data.{NodeId, NodeTerm}
use quaso.Raft.Server.Ballots.{IsSingleVote}
use quaso.Raft.History.{Ballot}
use quaso.Raft.History.SingleVote.{History-IsSingleVote}
use quaso.Raft.Cluster.{Life, IsElected}
use quaso.Raft.Cluster.Pigeonhole.{common}

-- Votes of one node for one term.
single-In :
    (bs : List Ballot) (c d : NodeId) (term : NodeTerm)
    → IsSingleVote bs
    → In (c, term) bs
    → In (d, term) bs
    → c ≡ d
single-In [] c d term h i j = absurd i
single-In (b ∷ bs) c d term h (inl e) (inl e') = ap (λ (x : Ballot). x.0) (e ∙ sym e')
single-In (b ∷ bs) c d term h (inl e) (inr j) =
    sym
      (All-In _ (d, term) bs h.0 j (ap (λ (x : Ballot). x.1) e) ∙ ap (λ (x : Ballot). x.0) (sym e))
single-In (b ∷ bs) c d term h (inr i) (inl e) =
    All-In _ (c, term) bs h.0 i (ap (λ (x : Ballot). x.1) e) ∙ ap (λ (x : Ballot). x.0) (sym e)
single-In (b ∷ bs) c d term h (inr i) (inr j) = single-In bs c d term h.1 i j

module _ {T : Type 0} (members : List NodeId) (life : NodeId → Life T) where
  pub one_leader :
      (c d : NodeId) (term : NodeTerm)
      → IsElected members life c term
      → IsElected members life d term
      → c ≡ d
  one_leader c d term h k =
      let (v, i, j) =
        common h.voters k.voters members h.distinct k.distinct
          (λ v i. All-In _ v h.voters h.known i) (λ v i. All-In _ v k.voters k.known i)
          (omega (arith, h.quorum, k.quorum)) in
      single-In (life v).ballots c d term (History-IsSingleVote (life v).history)
        (All-In _ v h.voters h.voted i) (All-In _ v k.voters k.voted j)
