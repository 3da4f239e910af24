-- ===== src/Raft/Broadcast/Spread.antt =====
-- What is in a leader's log reaches every node, is committed there and delivered: a heartbeat, the
-- leader's commit, and the next heartbeat.
use quaso.Prelude.{
  ℕ, ◌+◌, ◌-◌, ◌≤◌, ◌<◌, ◌≡◌, refl, ap, ◌∙◌, String, List, ◌++◌, arith, length, All, In, In-All,
  take, drop, take_all, take-drop-drop, length-drop,
}
use mathlib.Core.List.{append_assoc}
use quaso.Prelude.Exec.{Exec, Outcome, done, ◌>>◌}
use quaso.Raft.Data.{Shared, State, Timer, LogIndex, LogEntry}
use quaso.Raft.Node.{Raft, get_quorum_length}
use quaso.Raft.Heartbeat.{record_self, maybe_send_heartbeat}
use quaso.Raft.Commit.{maybe_commit_log_entries}
use quaso.Raft.Commit.Quorum.{IsOrder}
use quaso.Raft.Commit.Advance.{commited_at, quorum-commits, quorum-level}
use quaso.Raft.Broadcast.{Codec, IsCodec, Peers, network_of, after_heartbeat}
use quaso.Raft.Broadcast.Heard.{HasHeard, hears-HasHeard}
use quaso.Raft.Broadcast.Ready.{
  IsReady, informed, informed-count, heartbeat-informed, informed-IsReady,
}

module _ {T : Type 0} where
  -- Every node has the leader's log, and has committed and delivered all of it.
  pub record HasAll (log : List (LogEntry T)) (f f' : Shared T) : Type 0 where
    pub same_log : f'.log ≡ log
    pub commit : f'.commited_index ≡ length log
    pub delivered : f'.delivered ≡ f.delivered ++ drop f.commited_index log

  module _ (order : List (LogIndex × ℕ) → List (LogIndex × ℕ)) (is_order : IsOrder order)
      (peers : Peers T) (k : String → ℕ) (r : Raft T) (t : Timer) (h : IsReady r peers k) where
    commit-informed :
        r.commited_index < length r.log
        → maybe_commit_log_entries order (informed t r)
          ≡ (done tt, commited_at (length r.log) (informed t r))
    unfolding record_self get_quorum_length
    commit-informed behind =
        let counted = informed-count t r h.distinct h.keyed h.inside in
        quorum-commits order is_order (informed t r) (length r.log) h.role
          (omega (arith, counted.1)) (omega (arith, counted.0)) behind (omega arith)

    commit-informed_level :
        length r.log ≤ r.commited_index
        → maybe_commit_log_entries order (informed t r) ≡ (done tt, informed t r)
    unfolding record_self get_quorum_length
    commit-informed_level level =
        let counted = informed-count t r h.distinct h.keyed h.inside in
        quorum-level order is_order (informed t r) (length r.log) h.role (omega (arith, counted.1))
          (omega (arith, counted.0)) level

  commited-IsReady :
      (r : Raft T) (peers : Peers T) (k : String → ℕ)
      → IsReady r peers k
      → IsReady (commited_at (length r.log) r) peers k
  commited-IsReady r peers k h = record {
    role = h.role;
    some_entries = h.some_entries;
    word = h.word;
    distinct = h.distinct;
    keyed = h.keyed;
    inside = h.inside;
    known = λ c i.
        let p = h.known c i in
        record {
          some_entries = p.some_entries;
          word = p.word;
          known = p.known;
          within = p.within;
          prefix = p.prefix;
          not_ahead = p.not_ahead;
          commit = omega arith;
        };
  }

  -- The commit index after hearing of the leader's.
  heard_commit :
      (l : State T) (f f' : Shared T) (n : ℕ)
      → HasHeard l f f'
      → f.commited_index ≤ n
      → l.commited_index ≤ n
      → (f.commited_index ≤ f'.commited_index)
        × (f'.commited_index ≤ n)
        × (l.commited_index - f.commited_index ≡ f'.commited_index - f.commited_index)
  heard_commit l f f' n h within within' = ground (arith, h.commit)

  -- Hearing of the leader's commit index, and then of the whole log's.
  heard_twice :
      (l l' : State T) (f f' f'' : Shared T)
      → HasHeard l f f'
      → HasHeard l' f' f''
      → l'.log ≡ l.log
      → l'.commited_index ≡ length l.log
      → f.commited_index ≤ length l.log
      → l.commited_index ≤ length l.log
      → HasAll l.log f f''
  heard_twice l l' f f' f'' h h' e e' within within' =
      let log = l.log in
      let c = f.commited_index in
      let m = f'.commited_index in
      let (after, inside, same) = heard_commit l f f' (length log) h within within' in
      let all : take (length log - m) (drop m log) ≡ drop m log =
        take_all (length log - m) (drop m log) (omega (arith, length-drop m log)) in
      let first : f'.delivered ≡ f.delivered ++ take (m - c) (drop c log) =
        h.delivered ∙ ap (λ d. f.delivered ++ take d (drop c log)) same in
      let second : f''.delivered ≡ f'.delivered ++ drop m log = rw (e, e', all) at h'.delivered in
      record {
        same_log = h'.log ∙ e;
        commit = ground (arith, h'.commit, e');
        delivered =
            second
            ∙ ap (λ x. x ++ drop m log) first
            ∙ append_assoc f.delivered (take (m - c) (drop c log)) (drop m log)
            ∙ ap (λ x. f.delivered ++ x) (take-drop-drop c m log after);
      }

-- When the leader looks for the first heartbeat and when it sets the time of the next; the same of the
-- second one, and when the peers hear it.
pub record Times : Type 0 where
  pub sent : Timer
  pub set : Timer
  pub sent_again : Timer
  pub set_again : Timer
  pub heard_again : String → Timer

-- How each round ended, and the leader and its peers after both.
pub record Beats (T : Type 0) : Type 0 where
  pub first : Outcome (Unit {0})
  pub second : Outcome (Unit {0})
  pub raft : Raft T
  pub peers : Peers T

module _ {T : Type 0} (codec : Codec T) (order : List (LogIndex × ℕ) → List (LogIndex × ℕ)) where
  -- The leader's part of a round of the ticker: a heartbeat, and its commit.
  abbrev pub beat : Peers T → Timer → Timer → Exec (Raft T) (Unit {0})
  beat peers t t' = do
    maybe_send_heartbeat (network_of codec peers) t t'
    maybe_commit_log_entries order

  -- Two of them, the second after what the peers made of the first.
  abbrev pub two_beats : Times → Peers T → Raft T → Beats T
  two_beats times peers r =
      let first = beat peers times.sent times.set r in
      let peers' = after_heartbeat codec r peers times.heard_again in
      let second = beat peers' times.sent_again times.set_again first.1 in
      record {
        first = first.0;
        second = second.0;
        raft = second.1;
        peers = after_heartbeat codec first.1 peers' times.heard_again;
      }

  module _ (lawful : IsCodec codec) (is_order : IsOrder order) where
    beat-commits :
        (peers : Peers T) (k : String → ℕ) (r : Raft T) (t t' : Timer)
        → IsReady r peers k
        → r.heartbeat_timeout ≤ t.now
        → r.commited_index < length r.log
        → beat peers t t' r ≡ (done tt, commited_at (length r.log) (informed t' r))
    beat-commits peers k r t t' h due behind =
        rw (heartbeat-informed codec lawful peers k r t t' h due)
          (commit-informed order is_order peers k r t' h behind)

    beat-level :
        (peers : Peers T) (k : String → ℕ) (r : Raft T) (t t' : Timer)
        → IsReady r peers k
        → r.heartbeat_timeout ≤ t.now
        → length r.log ≤ r.commited_index
        → beat peers t t' r ≡ (done tt, informed t' r)
    beat-level peers k r t t' h due level =
        rw (heartbeat-informed codec lawful peers k r t t' h due)
          (commit-informed_level order is_order peers k r t' h level)

    -- A leader's commit index is not at the end of its log, and no node's commit index is past
    -- it. It has entries, fewer than 2^64 - 1 of them; its own address and its connections are
    -- different ones, and the keys of its match index are among them, each once; the node at
    -- each connection has a log that is the first entries of the leader's, as many as the
    -- leader's next index for it tells, and a term that is not higher. bincode gives back what
    -- it was given, and requests to the connections reach the listeners of those nodes. Then
    -- two rounds of heartbeat and commit, each with the heartbeat due, return, in whatever
    -- order the leader's maps are iterated; every node then has the leader's log and a commit
    -- index at its end, and has delivered exactly the entries from its old commit index on, in
    -- their order.
    pub log_reaches_all :
        (peers : Peers T) (k : String → ℕ) (r : Raft T) (times : Times)
        → IsReady r peers k
        → r.commited_index < length r.log
        → ((c : String) → In c r.connections → (peers.at c).commited_index ≤ length r.log)
        → r.heartbeat_timeout ≤ times.sent.now
        → times.set.now + times.set.heartbeat_time ≤ times.sent_again.now
        → let beats = two_beats times peers r in
          (beats.first ≡ done tt)
          × (beats.second ≡ done tt)
          × HasAll r.log r.shared beats.raft.shared
          × All (λ c. HasAll r.log (peers.at c) (beats.peers.at c)) r.connections
    unfolding record_self
    log_reaches_all peers k r times h behind within due due' =
        let n = length r.log in
        let r' = commited_at n (informed times.set r) in
        let peers' = after_heartbeat codec r peers times.heard_again in
        let first : beat peers times.sent times.set r ≡ (done tt, r') =
          beat-commits peers k r times.sent times.set h due behind in
        let h' : IsReady r' peers' (λ _. n) =
          commited-IsReady (informed times.set r) peers' (λ _. n)
            (informed-IsReady codec lawful peers k r times.set times.heard_again h) in
        let second : beat peers' times.sent_again times.set_again r'
            ≡ (done tt, informed times.set_again r') =
          beat-level peers' (λ _. n) r' times.sent_again times.set_again h' due' (omega arith) in
        rw (first, second)
          (
            refl,
            refl,
            record {
              same_log = refl;
              commit = refl;
              delivered =
                  ap (λ x. r.delivered ++ x)
                    (take_all (n - r.commited_index) (drop r.commited_index r.log)
                      (omega (arith, length-drop r.commited_index r.log)));
            },
            In-All _ r.connections (λ c i.
                heard_twice r.state r'.state (peers.at c) (peers'.at c) _
                  (hears-HasHeard codec lawful peers c (k c) r (h.known c i))
                  (hears-HasHeard codec lawful peers' c n r' (h'.known c i)) refl refl (within c i)
                  (h.known c i).commit),
          )
