-- ===== src/Kv/Store/Agree.antt =====
-- The stores of all nodes: what their tasks make of the entries that two rounds of a leader's
-- heartbeat and commit deliver to them.
mod Tests
pub mod Text
pub mod Written
use Prim.Native.String.{◌++◌ as join}
use mathlib.Core.Path.{subst}
use quaso.Prelude.{
  ℕ, zero, suc, ◌+◌, ◌-◌, ◌≤◌, ◌<◌, ◌≡◌, ◌≢◌, refl, sym, ap, ◌∙◌, String, Bool, true, some, List,
  [], ◌∷◌, ◌++◌, arith, length, take, drop, All, In, In-All, All-In, take-take, length-append,
  length-take_of_le, take-append-drop, Bool-cases, inl, inr, append-left_cancel,
}
use quaso.Prelude.Exec.{done}
use quaso.HashMap as Map
use quaso.HashMap.Keys.{get-insert_self}
use quaso.Raft.Data.{NodeId, NodeTerm, set_log, Shared, Timer, LogIndex, LogEntry, leader, role_eq}
use quaso.Raft.Node.{Raft, on_node_state}
use quaso.Raft.Commit.Quorum.{IsOrder}
use quaso.Raft.Replicate.{IsPrefixKnown}
use quaso.Raft.Broadcast.{Codec, IsCodec, Peers, after_heartbeat}
use quaso.Raft.Broadcast.Ready.{IsReady}
use quaso.Raft.Broadcast.Spread.{HasAll, Times, Beats, two_beats, log_reaches_all}
use quaso.Kv.Command.{Operation, set, get, delete, invalid}
use quaso.Kv.Store.{
  Storage, KvStore, Message, from_client, from_raft, init_default, apply, deliver_all, handle_cmd,
  handle_message, answer, storage_set, generic_handler_interface,
}
use quaso.Kv.Store.Clients.{answer-write, append_entry-leader}
use quaso.Kv.Store.Replica.{IsReplica, entries_of, IsReplica-append, deliver_all-append}

-- The stores of the other nodes by the addresses of their listeners, how requests are encoded, the
-- order in which the leader's maps are iterated, and when all this happens.
pub record Cluster : Type 0 where
  pub codec : Codec Operation
  pub order : List (LogIndex × ℕ) → List (LogIndex × ℕ)
  pub times : Times
  pub id_of : String → NodeId
  pub heard : String → Timer
  pub stores : String → KvStore

abbrev pub peers_of : Cluster → Peers Operation
peers_of g = record { id_of = g.id_of; time = g.heard; at = λ c. (g.stores c).raft.shared }

-- A store whose node has come to be as `f`.
abbrev pub moved : KvStore → Shared Operation → KvStore
moved s f = record s { raft = record s.raft { shared = f } }

generic_handler_interface-storage :
    (ms : List Message) (s : KvStore)
    → (generic_handler_interface ms s).storage ≡ deliver_all (entries_of ms) s.storage
unfolding generic_handler_interface handle_message deliver_all
generic_handler_interface-storage [] s = refl
generic_handler_interface-storage (from_client op ∷ ms) s =
    generic_handler_interface-storage ms (record s { raft = handle_cmd op s.raft })
generic_handler_interface-storage (from_raft m ∷ ms) s =
    generic_handler_interface-storage ms (record s { storage = apply m s.storage })

-- A store that had applied its part of the log has applied all of it.
all_applied :
    (log : List (LogEntry Operation)) (s : KvStore) (r : Raft Operation) (ms : List Message)
    → HasAll log s.raft.shared r.shared
    → s.storage ≡ deliver_all (take s.raft.commited_index log) init_default
    → r.delivered ≡ s.raft.delivered ++ entries_of ms
    → (generic_handler_interface ms (record s { raft = r })).storage ≡ deliver_all log init_default
all_applied log s r ms has same delivers =
    let c = s.raft.commited_index in
    let rest : drop c log ≡ entries_of ms =
      append-left_cancel s.raft.delivered (drop c log) (entries_of ms)
        (sym has.delivered ∙ delivers) in
    generic_handler_interface-storage ms (record s { raft = r })
    ∙ ap (λ es. deliver_all es s.storage) (sym rest)
    ∙ ap (deliver_all (drop c log)) same
    ∙ sym (deliver_all-append (take c log) (drop c log) init_default)
    ∙ ap (λ l. deliver_all l init_default) (take-append-drop c log)

-- What a peer's map was made of is the beginning of the leader's log too.
prefix_applied :
    (s : KvStore) (r : Raft Operation) (c : String) (k : ℕ)
    → IsPrefixKnown r.state s.raft.shared c k
    → IsReplica s
    → (s.raft.commited_index ≤ length r.log)
      × (s.storage ≡ deliver_all (take s.raft.commited_index r.log) init_default)
unfolding deliver_all
prefix_applied s r c k known h =
    let i = s.raft.commited_index in
    let inside : i ≤ k =
      omega (arith, h.within, ap length known.prefix, length-take_of_le k r.log known.within) in
    (
      omega (arith, known.within),
      h.same
          ∙ ap (λ l. deliver_all l init_default)
              (ap (take i) known.prefix ∙ take-take i k r.log inside),
    )

-- The leader and its peers after two rounds.
abbrev pub beats : Cluster → Raft Operation → Beats Operation
beats g = two_beats g.codec g.order g.times (peers_of g)

-- A peer's store then, with what its task has taken.
abbrev pub store_of : Cluster → (String → List Message) → Raft Operation → String → KvStore
store_of g mss r c = generic_handler_interface (mss c) (moved (g.stores c) ((beats g r).peers.at c))

module _ (g : Cluster) (lawful : IsCodec g.codec) (is_order : IsOrder g.order) (k : String → ℕ)
    (ms : List Message) (mss : String → List Message) where
  -- A leader's commit index is not at the end of its log. It has entries, fewer than 2^64 - 1
  -- of them; its own address and its connections are different ones, and the keys of its match
  -- index are among them, each once; the node at each connection has a log that is the first
  -- entries of the leader's, as many as the leader's next index for it tells, and a term that
  -- is not higher. bincode gives back what it was given, and requests to the connections reach
  -- the listeners of those nodes. The map of every store is what its node's log up to the
  -- commit index, which is inside the log, makes of an empty one. Two rounds of heartbeat and
  -- commit, each with the heartbeat due, return; and once each store's task has taken what they
  -- deliver to it, in that order, with any commands of clients in between, every map is what
  -- the leader's log makes of an empty one.
  pub stores_agree :
      (s : KvStore)
      → IsReady s.raft (peers_of g) k
      → IsReplica s
      → ((c : String) → In c s.raft.connections → IsReplica (g.stores c))
      → s.raft.commited_index < length s.raft.log
      → s.raft.heartbeat_timeout ≤ g.times.sent.now
      → g.times.set.now + g.times.set.heartbeat_time ≤ g.times.sent_again.now
      → (beats g s.raft).raft.delivered ≡ s.raft.delivered ++ entries_of ms
      → ((c : String)
          → In c s.raft.connections
          → ((beats g s.raft).peers.at c).delivered
            ≡ (g.stores c).raft.delivered ++ entries_of (mss c))
      → ((beats g s.raft).first ≡ done tt)
        × ((beats g s.raft).second ≡ done tt)
        × ((generic_handler_interface ms (record s { raft = (beats g s.raft).raft })).storage
            ≡ deliver_all s.raft.log init_default)
        × All
            (λ c. (store_of g mss s.raft c).storage ≡ deliver_all s.raft.log init_default)
            s.raft.connections
  unfolding deliver_all
  stores_agree s ready own others behind due due' delivers delivers' =
      let log = s.raft.log in
      let prefix = λ (c : String) (i : In c s.raft.connections).
        prefix_applied (g.stores c) s.raft c (k c) (ready.known c i) (others c i) in
      let (first, second, leads, follow) =
        log_reaches_all g.codec g.order lawful is_order (peers_of g) k s.raft g.times ready behind
          (λ c i. (prefix c i).0) due due' in
      (
        first,
        second,
        all_applied log s _ ms leads own.same delivers,
        In-All _ s.raft.connections (λ c i.
            all_applied log (g.stores c) (moved (g.stores c) ((beats g s.raft).peers.at c)).raft
              (mss c) (All-In _ c s.raft.connections follow i) (prefix c i).1 (delivers' c i)),
      )
