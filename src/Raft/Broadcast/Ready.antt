-- ===== src/Raft/Broadcast/Ready.antt =====
-- A leader that knows what its peers have: a heartbeat brings them up to date, and the leader is
-- ready for the next one.
use quaso.Prelude.{
  ℕ, suc, ◌+◌, ◌≤◌, ◌<◌, ◌≡◌, refl, sym, ap, ◌∙◌, inl, inr, String, some, List, [], ◌∷◌, arith,
  length, usize_mod, usize_add, usize_add-eq, le→ltb, All, In, IsDistinct, take_all, length-inside,
  ==_iff,
}
use quaso.Prelude.Exec.{done}
use quaso.HashMap as Map
use quaso.HashMap.Keys.{
  keys, insert_all, insert_all-IsDistinct, insert-IsDistinct, keys-insert, keys-insert_all,
  get-insert_all, get-insert_old, get-insert_other, get-insert_self, get-keys, length-values,
  values-same,
}
use quaso.Raft.Data.{leader, role_eq, Timer}
use quaso.Raft.Node.{Raft}
use quaso.Raft.Heartbeat.{on_volatile, record_self, maybe_send_heartbeat}
use quaso.Raft.Commit.Frequency.{count}
use quaso.Raft.Replicate.{IsPrefixKnown}
use quaso.Raft.Broadcast.{Codec, IsCodec, Peers, network_of, after_heartbeat}
use quaso.Raft.Broadcast.Heard.{hears-HasHeard, recorded, heartbeat_loop-peers}

count_same : (v : ℕ) (xs : List ℕ) → All (λ w. w ≡ v) xs → count v xs ≡ length xs
count_same v [] h = refl
count_same v (x ∷ xs) (e, h) = rw (e, (==_iff v v).1 refl) (ap suc (count_same v xs h))

module _ {T : Type 0} where
  -- `k` has how many of the leader's entries each peer has.
  pub record IsReady (r : Raft T) (peers : Peers T) (k : String → ℕ) : Type 0 where
    pub role : r.node_type ≡ leader
    pub some_entries : 0 < length r.log
    pub word : length r.log + 1 < usize_mod
    pub distinct : IsDistinct (r.listener_addr ∷ r.connections)
    pub keyed : IsDistinct (keys r.match_index)
    pub inside : (a : String) → In a (keys r.match_index) → In a (r.listener_addr ∷ r.connections)
    pub known : (c : String) → In c r.connections → IsPrefixKnown r.state (peers.at c) c (k c)

  -- The leader after a heartbeat that every peer takes.
  abbrev pub informed : Timer → Raft T → Raft T
  informed t r = record_self t (on_volatile (recorded r.connections (length r.log)) r)

  informed-get :
      (t : Timer) (r : Raft T) (a : String)
      → In a (r.listener_addr ∷ r.connections)
      → Map.get a (informed t r).match_index ≡ some (length r.log)
  unfolding record_self
  informed-get t r a (inl e) = rw e (
      get-insert_self r.listener_addr (length r.log)
        (insert_all r.connections (length r.log) r.match_index))
  informed-get t r a (inr i) =
      get-insert_old r.listener_addr a (length r.log)
        (insert_all r.connections (length r.log) r.match_index)
        (get-insert_all r.connections a (length r.log) r.match_index i)

  informed-IsDistinct :
      (t : Timer) (r : Raft T)
      → IsDistinct (keys r.match_index)
      → IsDistinct (keys (informed t r).match_index)
  unfolding record_self
  informed-IsDistinct t r h =
      insert-IsDistinct r.listener_addr (length r.log) _
        (insert_all-IsDistinct r.connections (length r.log) r.match_index h)

  informed-keys :
      (t : Timer) (r : Raft T) (a : String)
      → ((b : String) → In b (keys r.match_index) → In b (r.listener_addr ∷ r.connections))
      → In a (keys (informed t r).match_index)
      → In a (r.listener_addr ∷ r.connections)
  unfolding record_self
  informed-keys t r a inside h = elim (keys-insert r.listener_addr a (length r.log) _ h) [
    | inl e ↦ inl e
    | inr i ↦ elim (keys-insert_all r.connections a (length r.log) r.match_index i) [
      | inl here ↦ inr here
      | inr old ↦ inside a old
    ]
  ]

  informed-next :
      (t : Timer) (r : Raft T) (c : String)
      → length r.log + 1 < usize_mod
      → ¬ In r.listener_addr r.connections
      → In c r.connections
      → Map.get c (informed t r).next_index ≡ some (suc (length r.log))
  unfolding record_self
  informed-next t r c word apart i =
      let n = usize_add (length r.log) 1 in
      get-insert_other r.listener_addr c n (insert_all r.connections n r.next_index)
        (λ e. apart (rw e i))
      ∙ get-insert_all r.connections c n r.next_index i
      ∙ ap some (usize_add-eq (length r.log) 1 word ∙ omega arith)

  -- Every match index is the length of the log, and there is one for each node.
  pub informed-count :
      (t : Timer) (r : Raft T)
      → IsDistinct (r.listener_addr ∷ r.connections)
      → IsDistinct (keys r.match_index)
      → ((b : String) → In b (keys r.match_index) → In b (r.listener_addr ∷ r.connections))
      → (count (length r.log) (Map.values (informed t r).match_index) ≡ length r.connections + 1)
        × (length (Map.values (informed t r).match_index) ≡ length r.connections + 1)
  informed-count t r distinct keyed inside =
      let m = (informed t r).match_index in
      let keyed' = informed-IsDistinct t r keyed in
      let same : All (λ w. w ≡ length r.log) (Map.values m) =
        values-same (length r.log) m keyed'
          (λ a i. informed-get t r a (informed-keys t r a inside i)) in
      let few : length (keys m) ≤ suc (length r.connections) =
        length-inside (keys m) (r.listener_addr ∷ r.connections) keyed'
          (λ a i. informed-keys t r a inside i) in
      let many : suc (length r.connections) ≤ length (keys m) =
        length-inside (r.listener_addr ∷ r.connections) (keys m) distinct
          (λ a i. get-keys a (length r.log) m (informed-get t r a i)) in
      let whole : length (Map.values m) ≡ length r.connections + 1 =
        omega (arith, length-values m, few, many) in
      (count_same (length r.log) (Map.values m) same ∙ whole, whole)

  -- Nothing but the indices and the time of the next heartbeat changes.
  pub informed-timeout :
      (t : Timer) (r : Raft T) → (informed t r).heartbeat_timeout ≡ t.now + t.heartbeat_time
  unfolding record_self
  informed-timeout t r = refl

module _ {T : Type 0} (codec : Codec T) (lawful : IsCodec codec) where
  pub heartbeat-informed :
      (peers : Peers T) (k : String → ℕ) (r : Raft T) (t t' : Timer)
      → IsReady r peers k
      → r.heartbeat_timeout ≤ t.now
      → maybe_send_heartbeat (network_of codec peers) t t' r ≡ (done tt, informed t' r)
  unfolding maybe_send_heartbeat
  heartbeat-informed peers k r t t' h due = rw (
    ap (λ x. role_eq x leader) h.role,
    le→ltb t.now r.heartbeat_timeout due,
    heartbeat_loop-peers codec lawful peers 0 r.connections k r h.some_entries h.distinct.1 h.known,
  )

  pub informed-IsReady :
      (peers : Peers T) (k : String → ℕ) (r : Raft T) (t : Timer) (times : String → Timer)
      → IsReady r peers k
      → IsReady (informed t r) (after_heartbeat codec r peers times) (λ _. length r.log)
  unfolding record_self
  informed-IsReady peers k r t times h = record {
    role = h.role;
    some_entries = h.some_entries;
    word = h.word;
    distinct = h.distinct;
    keyed = informed-IsDistinct t r h.keyed;
    inside = λ a. informed-keys t r a h.inside;
    known = λ c i.
        let heard = hears-HasHeard codec lawful peers c (k c) r (h.known c i) in
        record {
          some_entries = h.some_entries;
          word = omega (arith, h.word);
          known = informed-next t r c h.word h.distinct.0 i;
          within = omega arith;
          prefix = heard.log ∙ sym (take_all (length r.log) r.log (omega arith));
          not_ahead = omega (arith, heard.term);
          commit = (h.known c i).commit;
        };
  }
