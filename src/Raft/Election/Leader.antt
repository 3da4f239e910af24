-- ===== src/Raft/Election/Leader.antt =====
-- What becomes of a won election, and of one that nobody else can vote in.
use quaso.Prelude.{
  ℕ, ◌+◌, ◌<◌, ◌≡◌, refl, ap, ◌∙◌, String, Bool, true, false, ◌||◌, some, List, [], ◌∷◌, arith,
  if◌then◌else◌, length, str_eq, u32_mod, usize_mod, usize_add, lt→ltb,
}
use quaso.Prelude.Exec.{Outcome, done}
use quaso.HashMap as Map
use quaso.HashMap.{HashMap, get-insert}
use quaso.Raft.Data.{LogIndex, Instant, Timer, Shared, leader, AppendEntriesRequest}
use quaso.Raft.Append.{append_entries}
use quaso.Raft.Append.Commit.{HasAppended}
use quaso.Raft.Append.Outcome.{Takes, Takes-HasAppended}
use quaso.Raft.Client.{Network}
use quaso.Raft.Node.{Raft}
use quaso.Raft.Election.{
  win, lead_indices, election_section, finish, between, handle_candidate_election,
}
use quaso.Raft.Election.Votes.{HasWon, win-HasWon}

abbrev pub contains : String → List String → Bool
contains k [] = false
contains k (a ∷ addrs) = str_eq a k || contains k addrs

get-lead_indices :
    (k : String) (index : LogIndex) (addrs : List String) (m : HashMap LogIndex)
    → Map.get k (lead_indices index addrs m)
      ≡ (if contains k addrs then some index else Map.get k m)
unfolding lead_indices
get-lead_indices k index [] m = refl
get-lead_indices k index (a ∷ addrs) m =
    ground (arith, get-lead_indices k index addrs (Map.insert a index m), get-insert a k index m)

module _ {T : Type 0} (net : Network T) (clock : ℕ → Instant) (t : Timer) (r r' : Raft T)
    (won : election_section net clock t r ≡ (done (some win), r')) where
  pub handle_win :
      (gap : Shared T → Shared T)
      → handle_candidate_election net clock t gap r ≡ (done tt, finish win (between gap r'))
  unfolding handle_candidate_election
  handle_win gap = rw won

  -- Nothing happens while the lock is free.
  abbrev pub leader_now : Raft T
  leader_now = (handle_candidate_election net clock t (λ s. s) r).1

  pub record LeadsFrom (index : LogIndex) (conn : String) : Type 0 where
    pub role : leader_now.node_type ≡ leader
    pub flag : leader_now.is_leader ≡ true
    pub term : leader_now.node_term ≡ r.node_term
    pub log : leader_now.log ≡ r.log
    pub next : Map.get conn leader_now.next_index ≡ some index
    pub match : Map.get conn leader_now.match_index ≡ some 0

  -- After a won election with nothing happening while the lock is free, the node is a leader
  -- with its flag up, in the term and with the log it stood with. For each of its connections
  -- the next index is the length of the log and 1, and the match index 0. The term is below
  -- 2^32 and the length and 1 below 2^64.
  pub win-LeadsFrom :
      (conn : String)
      → contains conn r.connections ≡ true
      → r.node_term < u32_mod
      → length r.log + 1 < usize_mod
      → LeadsFrom (length r.log + 1) conn
  unfolding finish
  win-LeadsFrom conn known small fits =
      let h : HasWon net clock t r r' = win-HasWon net clock t r r' won in
      let end : leader_now ≡ finish win r' =
        ap (λ (x : Outcome (Unit {0}) × Raft T). x.1) (handle_win (λ s. s)) in
      let at : (k : LogIndex) → Map.get conn (lead_indices k r'.connections []) ≡ some k =
        λ k. get-lead_indices conn k r'.connections [] ∙ rw (h.connections, known) in
      record {
        role = ap (λ (x : Raft T). x.node_type) end;
        flag = ap (λ (x : Raft T). x.is_leader) end;
        term = ap (λ (x : Raft T). x.node_term) end ∙ omega (arith, h.term);
        log = ap (λ (x : Raft T). x.log) end ∙ h.log;
        next =
            ap (λ (x : Raft T). Map.get conn x.next_index) end
            ∙ ap (Map.get conn) h.indices.0
            ∙ at (usize_add (length r'.log) 1)
            ∙ ap some (omega (arith, ap length h.log));
        match =
            ap (λ (x : Raft T). Map.get conn x.match_index) end
            ∙ ap (Map.get conn) h.indices.1
            ∙ at 0;
      }

  -- If the listener takes an AppendEntries of a higher term between the count of the votes and
  -- the transition, when the lock is free, the node ends as a leader of that term, with its
  -- vote on that term's leader. The log is shorter than 2^64, and the request's term is below
  -- 2^32.
  pub overtaken :
      (timer : Timer) (req : AppendEntriesRequest T)
      → length r'.log < usize_mod
      → Takes req r'.state
      → r.node_term < req.term
      → req.term < u32_mod
      → let gap = λ (s : Shared T). (append_entries r.node_id timer req s).1 in
        let after = (handle_candidate_election net clock t gap r).1 in
        (after.node_type ≡ leader)
        × (after.node_term ≡ req.term)
        × (after.voted_for ≡ some req.leader_id)
  unfolding finish
  overtaken timer req small takes newer word =
      let h : HasWon net clock t r r' = win-HasWon net clock t r r' won in
      let has : HasAppended req r'.shared (append_entries r.node_id timer req r'.shared).1 =
        Takes-HasAppended r.node_id timer req r'.shared small takes in
      let end : (handle_candidate_election net clock t
            (λ s. (append_entries r.node_id timer req s).1) r).1
          ≡ finish win (between (λ s. (append_entries r.node_id timer req s).1) r') =
        ap (λ (x : Outcome (Unit {0}) × Raft T). x.1)
          (handle_win (λ s. (append_entries r.node_id timer req s).1)) in
      (
        ap (λ (x : Raft T). x.node_type) end,
        ap (λ (x : Raft T). x.node_term) end ∙ omega (arith, has.term),
        ap (λ (x : Raft T). x.voted_for) end
            ∙ has.vote
            ∙ rw (lt→ltb r'.node_term req.term (omega (arith, h.term))),
      )
