-- ===== src/Kv/Store/Agree/Written.antt =====
-- A client's write on the leader's store, from its answer to the reads of it at every store.
use Prim.Native.String.{◌++◌ as join}
use mathlib.Core.Path.{subst}
use quaso.Prelude.{
  ℕ, ◌+◌, ◌≤◌, ◌≡◌, refl, sym, ap, ◌∙◌, String, true, some, List, [], ◌∷◌, ◌++◌, arith, All, In,
  In-All, All-In, length-append,
}
use quaso.Prelude.Exec.{done}
use quaso.HashMap as Map
use quaso.HashMap.Keys.{get-insert_self}
use quaso.Raft.Data.{NodeTerm, set_log, LogEntry, leader}
use quaso.Raft.Node.{on_node_state}
use quaso.Raft.Commit.Quorum.{IsOrder}
use quaso.Raft.Broadcast.{IsCodec}
use quaso.Raft.Broadcast.Ready.{IsReady}
use quaso.Kv.Command.{Operation, set, get}
use quaso.Kv.Store.{
  Storage, KvStore, Message, from_client, init_default, apply, deliver_all, handle_cmd,
  handle_message, answer, storage_set, generic_handler_interface,
}
use quaso.Kv.Store.Clients.{answer-write, append_entry-leader}
use quaso.Kv.Store.Replica.{IsReplica, entries_of, IsReplica-append, deliver_all-append}
use quaso.Kv.Store.Agree.{Cluster, peers_of, beats, store_of, stores_agree}

-- The value that a client of the store is answered for a key.
abbrev pub Reads : String → String → KvStore → Type 0
Reads key value s =
    answer s.storage s.raft.is_leader (get key) [] ≡ (done (join "\"" (join value "\"")), [])

-- The leader's store once it has handled a client's `set`.
abbrev pub written : String → String → KvStore → KvStore
written key value s = handle_message (from_client (set key value)) s

-- What it is then, on a leader.
abbrev logged : String → String → KvStore → KvStore
logged key value s = record s {
  raft =
      on_node_state
        (set_log (s.raft.log ++ record { value = set key value; term = s.raft.node_term } ∷ []))
        s.raft;
}

written-logged :
    (key value : String) (s : KvStore)
    → s.raft.node_type ≡ leader
    → written key value s ≡ logged key value s
unfolding handle_message handle_cmd
written-logged key value s role =
    ap (λ r. record s { raft = r }) (append_entry-leader (set key value) s.raft role)

apply-get :
    (key value : String) (term : NodeTerm) (m : Storage)
    → Map.get key (apply (record { value = set key value; term = term }) m) ≡ some value
unfolding apply storage_set
apply-get key value term m = get-insert_self key value m

-- A map that has been made of a log that ends with the write.
Reads-last :
    (key value : String) (term : NodeTerm) (log : List (LogEntry Operation)) (s : KvStore)
    → s.storage
      ≡ deliver_all (log ++ record { value = set key value; term = term } ∷ []) init_default
    → Reads key value s
unfolding answer deliver_all
Reads-last key value term log s h =
    let found : Map.get key s.storage ≡ some value =
      ap (Map.get key) (
        h
        ∙ deliver_all-append log (record { value = set key value; term = term } ∷ []) init_default)
      ∙ apply-get key value term (deliver_all log init_default) in
    rw found refl

-- The two rounds return, and then every node, with what its store's task has taken, answers a `get`
-- of the key with the value.
abbrev pub AllRead :
    Cluster → List Message → (String → List Message) → String → String → KvStore → Type 0
AllRead g ms mss key value s =
    ((beats g s.raft).first ≡ done tt)
    × ((beats g s.raft).second ≡ done tt)
    × Reads key value (generic_handler_interface ms (record s { raft = (beats g s.raft).raft }))
    × All (λ c. Reads key value (store_of g mss s.raft c)) s.raft.connections

module _ (g : Cluster) (lawful : IsCodec g.codec) (is_order : IsOrder g.order) (k : String → ℕ)
    (ms : List Message) (mss : String → List Message) where
  logged_reaches_all :
      (key value : String) (s : KvStore)
      → IsReady (logged key value s).raft (peers_of g) k
      → IsReplica s
      → ((c : String) → In c s.raft.connections → IsReplica (g.stores c))
      → s.raft.heartbeat_timeout ≤ g.times.sent.now
      → g.times.set.now + g.times.set.heartbeat_time ≤ g.times.sent_again.now
      → (beats g (logged key value s).raft).raft.delivered ≡ s.raft.delivered ++ entries_of ms
      → ((c : String)
          → In c s.raft.connections
          → ((beats g (logged key value s).raft).peers.at c).delivered
            ≡ (g.stores c).raft.delivered ++ entries_of (mss c))
      → AllRead g ms mss key value (logged key value s)
  logged_reaches_all key value s ready own others due due' delivers delivers' =
      let more : List (LogEntry Operation) =
        record { value = set key value; term = s.raft.node_term } ∷ [] in
      let s' = logged key value s in
      let (first, second, leads, follow) =
        stores_agree g lawful is_order k ms mss s' ready (IsReplica-append s more own) others
          (omega (arith, own.within, length-append s.raft.log more)) due due' delivers delivers' in
      (
        first,
        second,
        Reads-last key value s.raft.node_term s.raft.log
            (generic_handler_interface ms (record s' { raft = (beats g s'.raft).raft })) leads,
        In-All _ s.raft.connections (λ c i.
            Reads-last key value s.raft.node_term s.raft.log (store_of g mss s'.raft c)
              (All-In _ c s.raft.connections follow i)),
      )

  -- A leader whose flag is up answers a `set` with OK and queues it, and its store handles it.
  -- After that the leader is as follows. It has entries, fewer than 2^64 - 1 of them; its own
  -- address and its connections are different ones, and the keys of its match index are among
  -- them, each once; the node at each connection has a log that is the first entries of the
  -- leader's, as many as the leader's next index for it tells, and a term that is not higher.
  -- bincode gives back what it was given, and requests to the connections reach the listeners
  -- of those nodes. The map of every store is what its node's log up to the commit index, which
  -- is inside the log, makes of an empty one before the `set`. Then two rounds of heartbeat and
  -- commit, each with the heartbeat due, return; and once each store's task has taken what they
  -- deliver to it, in that order, with any commands of clients in between, a `get` of the key
  -- is answered with the value, by the leader and by every other node.
  pub write_reaches_all :
      (key value : String) (s : KvStore)
      → s.raft.node_type ≡ leader
      → s.raft.is_leader ≡ true
      → IsReady (written key value s).raft (peers_of g) k
      → IsReplica s
      → ((c : String) → In c s.raft.connections → IsReplica (g.stores c))
      → s.raft.heartbeat_timeout ≤ g.times.sent.now
      → g.times.set.now + g.times.set.heartbeat_time ≤ g.times.sent_again.now
      → (beats g (written key value s).raft).raft.delivered ≡ s.raft.delivered ++ entries_of ms
      → ((c : String)
          → In c s.raft.connections
          → ((beats g (written key value s).raft).peers.at c).delivered
            ≡ (g.stores c).raft.delivered ++ entries_of (mss c))
      → (answer s.storage s.raft.is_leader (set key value) [] ≡ (done "OK.", set key value ∷ []))
        × AllRead g ms mss key value (written key value s)
  write_reaches_all key value s role flag ready own others due due' delivers delivers' =
      let all : AllRead g ms mss key value (written key value s) =
        subst
          (λ (x : KvStore).
            IsReady x.raft (peers_of g) k
            → (beats g x.raft).raft.delivered ≡ s.raft.delivered ++ entries_of ms
            → ((c : String)
                → In c s.raft.connections
                → ((beats g x.raft).peers.at c).delivered
                  ≡ (g.stores c).raft.delivered ++ entries_of (mss c))
            → AllRead g ms mss key value x)
          (sym (written-logged key value s role))
          (λ now. logged_reaches_all key value s now own others due due') ready delivers
          delivers' in
      (answer-write s.storage s.raft.is_leader (set key value) [] tt flag, all)
