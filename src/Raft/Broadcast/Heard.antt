-- ===== src/Raft/Broadcast/Heard.antt =====
-- One heartbeat to every peer: what the leader learns, and what the peers have then.
use quaso.Prelude.{
  ℕ, suc, ◌<◌, ◌≡◌, ◌≢◌, refl, ap, ◌∙◌, inl, inr, String, true, some, List, [], ◌∷◌, length,
  usize_add, lt→ltb, In, IsDistinct, if◌then◌else◌, ltb, take, drop, ◌-◌, ◌++◌,
}
use quaso.Prelude.Exec.{done}
use quaso.HashMap.Keys.{get-insert_other, insert_all}
use quaso.Raft.Data.{
  NodeId, follower, State, Shared, Timer, VolatileState, AppendEntriesRequest,
  AppendEntriesResponse, append_entries_rpc,
}
use quaso.Raft.Append.{append_entries}
use quaso.Raft.Client.{send}
use quaso.Raft.Node.{Raft}
use quaso.Raft.Server.{serve, dispatch, appended}
use quaso.Raft.Heartbeat.{append_request, record_answer, heartbeat_to, heartbeat_loop, on_volatile}
use quaso.Raft.Replicate.{IsPrefixKnown, request_taken}
use quaso.Raft.Broadcast.{Codec, IsCodec, Peers, network_of, hears}

-- What the leader records for its peers.
abbrev pub recorded : List String → ℕ → VolatileState → VolatileState
recorded conns n v = record v {
  next_index = insert_all conns (usize_add n 1) v.next_index;
  match_index = insert_all conns n v.match_index;
}

record_answer-recorded :
    (conn : String) (conns : List String) (n : ℕ) (v : VolatileState)
    → 0 < n
    → recorded conns n (record_answer conn n true v) ≡ recorded (conn ∷ conns) n v
unfolding record_answer insert_all
record_answer-recorded conn conns n v h = rw (lt→ltb 0 n h) refl

module _ {T : Type 0} where
  -- What a follower has once it has heard from the leader.
  pub record HasHeard (l : State T) (f f' : Shared T) : Type 0 where
    pub role : f'.node_type ≡ follower
    pub term : f'.node_term ≡ l.node_term
    pub log : f'.log ≡ l.log
    pub commit :
        f'.commited_index
        ≡ (if ltb f.commited_index l.commited_index then l.commited_index else f.commited_index)
    pub delivered :
        f'.delivered
        ≡ f.delivered ++ take (l.commited_index - f.commited_index) (drop f.commited_index l.log)

module _ {T : Type 0} (codec : Codec T) (lawful : IsCodec codec) where
  -- A listener that gets an encoded request of this kind calls its handler.
  serve-encode :
      (id : NodeId) (t : Timer) (req : AppendEntriesRequest T) (s : Shared T)
      (resp : AppendEntriesResponse)
      → (append_entries id t req s).0 ≡ done resp
      → serve codec.decode id t (codec.encode (append_entries_rpc req)) s
        ≡ (done (some (appended resp)), (append_entries id t req s).1)
  unfolding serve dispatch
  serve-encode id t req s resp h =
      let (b, bs, e) = lawful.some_bytes (append_entries_rpc req) in
      let decoded = lawful.request (append_entries_rpc req) in rw e (rw (rw e at decoded) (rw h))

  module _ (peers : Peers T) (conn : String) (k : ℕ) where
    pub hears-HasHeard :
        (r : Raft T)
        → IsPrefixKnown r.state (peers.at conn) conn k
        → HasHeard r.state
            (peers.at conn)
            (hears codec (append_request r.node_id conn r.state) peers conn)
    hears-HasHeard r h =
        let (req, built, taken, term, commit, written, has) =
          request_taken r.state (peers.at conn) conn k r.node_id (peers.id_of conn)
            (peers.time conn) h in
        let handled =
          serve-encode (peers.id_of conn) (peers.time conn) req (peers.at conn) _ taken in
        let same : hears codec (append_request r.node_id conn r.state) peers conn
            ≡ (append_entries (peers.id_of conn) (peers.time conn) req (peers.at conn)).1 =
          rw built (ap (λ x. x.1) handled) in
        rw same (record {
          role = has.role;
          term = has.term ∙ term;
          log = has.log ∙ written;
          commit = rw commit at has.commit;
          delivered = rw (commit, written) at has.delivered;
        })

    heartbeat_to-peer :
        (i : ℕ) (r : Raft T)
        → IsPrefixKnown r.state (peers.at conn) conn k
        → heartbeat_to (network_of codec peers) i conn r
          ≡ (done tt, on_volatile (record_answer conn (length r.log) true) r)
    unfolding heartbeat_to send
    heartbeat_to-peer i r h =
        let (req, built, taken, term, commit, written, has) =
          request_taken r.state (peers.at conn) conn k r.node_id (peers.id_of conn)
            (peers.time conn) h in
        let answer : AppendEntriesResponse = record {
          node_id = peers.id_of conn;
          term = r.node_term;
          success = true;
        } in
        rw
          (
            built,
            serve-encode (peers.id_of conn) (peers.time conn) req (peers.at conn) _ taken,
            lawful.answer answer,
          )
          refl

  -- What is known of one peer does not change with another's answer.
  IsPrefixKnown-other :
      (r : Raft T) (f : Shared T) (conn c : String) (n k : ℕ)
      → conn ≢ c
      → IsPrefixKnown r.state f c k
      → IsPrefixKnown (on_volatile (record_answer conn n true) r).state f c k
  unfolding record_answer
  IsPrefixKnown-other r f conn c n k differs h = record {
    some_entries = h.some_entries;
    word = h.word;
    known = get-insert_other conn c (usize_add n 1) r.next_index differs ∙ h.known;
    within = h.within;
    prefix = h.prefix;
    not_ahead = h.not_ahead;
    commit = h.commit;
  }

  pub heartbeat_loop-peers :
      (peers : Peers T) (i : ℕ) (conns : List String) (k : String → ℕ) (r : Raft T)
      → 0 < length r.log
      → IsDistinct conns
      → ((c : String) → In c conns → IsPrefixKnown r.state (peers.at c) c (k c))
      → heartbeat_loop (network_of codec peers) i conns r
        ≡ (done tt, on_volatile (recorded conns (length r.log)) r)
  unfolding heartbeat_loop insert_all
  heartbeat_loop-peers peers i [] k r some_entries distinct known = refl
  heartbeat_loop-peers peers i (conn ∷ conns) k r some_entries (out, distinct) known =
      let n = length r.log in
      rw (heartbeat_to-peer peers conn (k conn) i r (known conn (inl refl))) (
        heartbeat_loop-peers peers (suc i) conns k (on_volatile (record_answer conn n true) r)
          some_entries distinct
          (λ c here.
            IsPrefixKnown-other r (peers.at c) conn c n (k c) (λ e. out (rw e here))
              (known c (inr here)))
        ∙ ap (λ v. (done tt, on_volatile (λ _. v) r))
            (record_answer-recorded conn conns n r.volatile_state some_entries))
