-- ===== src/Raft/Broadcast/Won.antt =====
-- From an election to a log that is everywhere: the leader that has just been elected knows what its
-- followers have, if they have its log.
use mathlib.Core.Path.{subst}
use quaso.Prelude.{
  ℕ, ◌+◌, ◌≤◌, ◌<◌, ◌≡◌, refl, sym, ap, ◌∙◌, inl, inr, String, Option, some, List, [], ◌∷◌, arith,
  length, take_all, All, In, IsDistinct, u32_mod, usize_mod, usize_add, usize_add-eq,
}
use quaso.Prelude.Exec.{Outcome, done}
use quaso.HashMap as Map
use quaso.HashMap.{HashMap}
use quaso.HashMap.Keys.{keys, insert_all, get-insert_all, keys-insert_all, insert_all-IsDistinct}
use quaso.Raft.Data.{LogIndex, LogEntry, Instant, Timer}
use quaso.Raft.Client.{Network}
use quaso.Raft.Node.{Raft, transition_wrapper}
use quaso.Raft.Election.{
  After, win, lead_indices, election_section, finish, handle_candidate_election,
}
use quaso.Raft.Election.Leader.{handle_win}
use quaso.Raft.Election.Votes.{
  HasWon, HasFreshIndices, win-HasWon, election_section-listener_addr,
  election_section-commited_index,
}
use quaso.Raft.Commit.Quorum.{IsOrder}
use quaso.Raft.Broadcast.{Codec, IsCodec, Peers}
use quaso.Raft.Broadcast.Ready.{IsReady}
use quaso.Raft.Broadcast.Spread.{HasAll, Times, two_beats, log_reaches_all}

lead_indices-insert_all :
    (index : LogIndex) (addrs : List String) (m : HashMap LogIndex)
    → lead_indices index addrs m ≡ insert_all addrs index m
unfolding lead_indices insert_all
lead_indices-insert_all index [] m = refl
lead_indices-insert_all index (a ∷ addrs) m =
    lead_indices-insert_all index addrs (Map.insert a index m)

module _ {T : Type 0} where
  -- The followers have the log of the node `r`, and its term is not behind theirs.
  pub record HaveLog (r : Raft T) (peers : Peers T) : Type 0 where
    pub log : (c : String) → In c r.connections → (peers.at c).log ≡ r.log
    pub term : (c : String) → In c r.connections → (peers.at c).node_term ≤ r.node_term

  fresh-IsReady :
      (r : Raft T) (peers : Peers T)
      → HasFreshIndices r
      → HaveLog r peers
      → 0 < length r.log
      → length r.log + 1 < usize_mod
      → r.node_term < u32_mod
      → r.commited_index ≤ length r.log
      → IsDistinct (r.listener_addr ∷ r.connections)
      → IsReady (finish win r) peers (λ _. length r.log)
  unfolding finish transition_wrapper insert_all
  fresh-IsReady r peers (next, match) have some_entries word small inside distinct =
      let n = usize_add (length r.log) 1 in
      let next' : r.next_index ≡ insert_all r.connections n [] =
        next ∙ lead_indices-insert_all n r.connections [] in
      let match' : r.match_index ≡ insert_all r.connections 0 [] =
        match ∙ lead_indices-insert_all 0 r.connections [] in
      record {
        role = refl;
        some_entries = some_entries;
        word = word;
        distinct = distinct;
        keyed =
            subst (λ m. IsDistinct (keys m)) (sym match')
              (insert_all-IsDistinct r.connections 0 [] tt);
        inside = λ a i.
            elim (keys-insert_all r.connections a 0 [] (subst (λ m. In a (keys m)) match' i)) [
              | inl here ↦ inr here
              | inr nobody ↦ absurd nobody
            ];
        known = λ c i. record {
          some_entries = some_entries;
          word = omega (arith, word);
          known =
              ap (Map.get c) next'
              ∙ get-insert_all r.connections c n [] i
              ∙ ap some (usize_add-eq (length r.log) 1 word ∙ omega arith);
          within = omega arith;
          prefix = have.log c i ∙ sym (take_all (length r.log) r.log (omega arith));
          not_ahead = omega (arith, have.term c i, small);
          commit = inside;
        };
      }

-- Two rounds of the leader return, and then it and its peers have all of the log.
abbrev pub AllHave :
    {T : Type 0}
    → Codec T
    → (List (LogIndex × ℕ) → List (LogIndex × ℕ))
    → Times
    → Peers T
    → Raft T
    → List (LogEntry T)
    → List String
    → Type 0
AllHave codec order times peers r log conns =
    let beats = two_beats codec order times peers r in
    (beats.first ≡ done tt)
    × (beats.second ≡ done tt)
    × HasAll log r.shared beats.raft.shared
    × All (λ c. HasAll log (peers.at c) (beats.peers.at c)) conns

module _ {T : Type 0} (codec : Codec T) (order : List (LogIndex × ℕ) → List (LogIndex × ℕ))
    (lawful : IsCodec codec) (is_order : IsOrder order) (times : Times) (peers : Peers T) where
  module _ (net : Network T) (clock : ℕ → Instant) (t : Timer) (r r' : Raft T)
      (won : election_section net clock t r ≡ (done (some win), r')) where
    fresh_reaches_all :
        HasWon net clock t r r'
        → HaveLog r' peers
        → 0 < length r'.log
        → length r'.log + 1 < usize_mod
        → r'.node_term < u32_mod
        → r'.commited_index < length r'.log
        → IsDistinct (r'.listener_addr ∷ r'.connections)
        → ((c : String) → In c r'.connections → (peers.at c).commited_index ≤ length r'.log)
        → (finish win r').heartbeat_timeout ≤ times.sent.now
        → times.set.now + times.set.heartbeat_time ≤ times.sent_again.now
        → AllHave codec order times peers (finish win r') r'.log r'.connections
    unfolding finish transition_wrapper
    fresh_reaches_all h have some_entries word small behind distinct within due due' =
        log_reaches_all codec order lawful is_order peers (λ _. length r'.log) (finish win r') times
          (fresh-IsReady r' peers h.indices have some_entries word small (omega arith) distinct)
          behind within due due'

    -- A candidate wins the locked part of its election, and nothing happens while the lock is
    -- free. Its log has entries, fewer than 2^64 - 1 of them, and reaches past its commit
    -- index; its term is below 2^32; its address and its connections are different ones; the
    -- node at each connection has the same log, a term that is not higher and a commit index
    -- inside the log. bincode gives back what it was given, and the new leader's heartbeats
    -- reach the listeners of those nodes. Then two rounds of heartbeat and commit, each with
    -- the heartbeat due, return, in whatever order the leader's maps are iterated; every node
    -- then has that log, a commit index at its end, and has delivered exactly the entries from
    -- its old commit index on.
    pub win_reaches_all :
        HaveLog r peers
        → 0 < length r.log
        → length r.log + 1 < usize_mod
        → r.node_term < u32_mod
        → r.commited_index < length r.log
        → IsDistinct (r.listener_addr ∷ r.connections)
        → ((c : String) → In c r.connections → (peers.at c).commited_index ≤ length r.log)
        → (handle_candidate_election net clock t (λ s. s) r).1.heartbeat_timeout ≤ times.sent.now
        → times.set.now + times.set.heartbeat_time ≤ times.sent_again.now
        → AllHave codec order times peers
            (handle_candidate_election net clock t (λ s. s) r).1
            r.log
            r.connections
    win_reaches_all have some_entries word small behind distinct within due due' =
        let h : HasWon net clock t r r' = win-HasWon net clock t r r' won in
        let section : (election_section net clock t r).1 ≡ r' =
          ap (λ (x : Outcome (Option After) × Raft T). x.1) won in
        let end : (handle_candidate_election net clock t (λ s. s) r).1 ≡ finish win r' =
          ap (λ (x : Outcome (Unit {0}) × Raft T). x.1)
            (handle_win net clock t r r' won (λ s. s)) in
        let addr : r'.listener_addr ≡ r.listener_addr =
          ap (λ (x : Raft T). x.listener_addr) (sym section)
          ∙ election_section-listener_addr net clock t r in
        let commit : r'.commited_index ≡ r.commited_index =
          ap (λ (x : Raft T). x.commited_index) (sym section)
          ∙ election_section-commited_index net clock t r in
        let size : length r'.log ≡ length r.log = ap length h.log in
        let same : (c : String) → In c r'.connections → In c r.connections =
          λ c i. subst (In c) h.connections i in
        let base : AllHave codec order times peers (finish win r') r'.log r'.connections =
          fresh_reaches_all h
            (record {
              log = λ c i. have.log c (same c i) ∙ sym h.log;
              term = λ c i. omega (arith, have.term c (same c i), h.term);
            })
            (omega (arith, size)) (omega (arith, size)) (omega (arith, h.term))
            (omega (arith, size, commit)) (rw (addr, h.connections) distinct)
            (λ c i. omega (arith, within c (same c i), size)) (rw end at due) due' in
        subst (λ x. AllHave codec order times peers x r.log r.connections) (sym end)
          (subst (λ l. AllHave codec order times peers (finish win r') l r.connections) h.log
            (subst (λ cs. AllHave codec order times peers (finish win r') r'.log cs) h.connections
              base))
