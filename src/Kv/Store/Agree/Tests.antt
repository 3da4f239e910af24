-- ===== src/Kv/Store/Agree/Tests.antt =====
-- Three stores: the leader's has three operations and is sent a fourth; the others lack one and two
-- of them.
use mathlib.Core.List.Perm
use quaso.Prelude.{
  ℕ, ◌≡◌, ◌≤◌, ap, refl, sym, ◌∙◌, String, false, some, List, [], ◌∷◌, ◌++◌, arith, if◌then◌else◌,
  str_eq, map, take, drop, All, All-In, In, inl, inr, length,
}
use quaso.Prelude.Exec.{done}
use quaso.HashMap as Map
use quaso.Raft.Data.{LogEntry, NodeRole, role_eq, set_log, follower, leader, Timer}
use quaso.Raft.Node.{Raft, append_entry, on_node_state}
use quaso.Raft.Broadcast.{Peers}
use quaso.Raft.Broadcast.Ready.{IsReady}
use quaso.Raft.Broadcast.Sample.{codec_of, codec_of-IsCodec, three_addresses, three_keys}
use quaso.Raft.Broadcast.Spread.{HasAll, Times, log_reaches_all}
use quaso.Raft.Samples.{timer, volatile}
use quaso.Kv.Command.{Operation, set, delete}
use quaso.Kv.Store.{
  KvStore, Message, from_client, from_raft, init_default, deliver_all, answer, handle_message,
  handle_cmd, generic_handler_interface,
}
use quaso.Kv.Store.Replica.{IsReplica, entries_of}
use quaso.Kv.Store.Agree.{Cluster, peers_of, beats, store_of, stores_agree}
use quaso.Kv.Store.Agree.Text.{operations}
use quaso.Kv.Store.Agree.Written.{written, AllRead, write_reaches_all}

abbrev log : List (LogEntry Operation)
log =
    record { value = set "k" "v"; term = 1 }
    ∷ record { value = set "j" "w"; term = 1 }
    ∷ record { value = delete "k"; term = 2 }
    ∷ []

-- A store that has applied `commit` of the entries of its log.
abbrev store : String → NodeRole → List (LogEntry Operation) → ℕ → KvStore
store address role entries commit = record {
  storage = deliver_all (take commit entries) init_default;
  raft = record {
    node_id = 1;
    connections = "b" ∷ "c" ∷ [];
    listener_addr = address;
    stopped = false;
    shared = record {
      state = record {
        persistent_state = record { node_term = 2; voted_for = some 1; log = entries };
        volatile_state = record (volatile role commit) { next_index = ("b", 3) ∷ ("c", 2) ∷ [] };
        recieved_leader_heartbeat = false;
      };
      delivered = take commit entries;
    };
    is_leader = role_eq role leader;
  };
}

-- The leader has committed two entries; `b` lacks one entry, and `c` two.
abbrev leads : KvStore
leads = store "a" leader log 2

abbrev stores : String → KvStore
stores addr =
    if str_eq addr "b" then store "b" follower (take 2 log) 1 else store "c" follower (take 1 log) 0

abbrev has : String → ℕ
has addr = if str_eq addr "b" then 2 else 1

abbrev later : Timer
later = record { now = 2000; heartbeat_time = 7; election_time = 200 }

abbrev times : Times
times = record {
  sent = timer;
  set = timer;
  sent_again = later;
  set_again = later;
  heard_again = λ addr. timer;
}

abbrev cluster : Cluster
cluster = record {
  codec = codec_of operations;
  order = λ m. m;
  times = times;
  id_of = λ addr. 2;
  heard = λ addr. timer;
  stores = stores;
}

abbrev peers : Peers Operation
peers = peers_of cluster

more-IsReady :
    (more : List (LogEntry Operation))
    → length more ≤ 1
    → IsReady (on_node_state (set_log (log ++ more)) leads.raft) peers has
unfolding Map.get
more-IsReady more few = record {
  role = refl;
  some_entries = omega arith;
  word = omega (arith, few);
  distinct = three_addresses;
  keyed = three_keys;
  inside = λ a i. elim i [
    | inl e ↦ inr (inl e)
    | inr j ↦ elim j [
      | inl e ↦ inr (inr (inl e))
      | inr l ↦ elim l [ inl e ↦ inl e | inr nobody ↦ absurd nobody ]
    ]
  ];
  known = λ c i. elim i [
    | inl e ↦ rw e (record {
      some_entries = omega arith;
      word = omega (arith, few);
      known = refl;
      within = omega arith;
      prefix = refl;
      not_ahead = omega arith;
      commit = omega arith;
    })
    | inr j ↦ elim j [
      | inl e ↦ rw e (record {
        some_entries = omega arith;
        word = omega (arith, few);
        known = refl;
        within = omega arith;
        prefix = refl;
        not_ahead = omega arith;
        commit = omega arith;
      })
      | inr nobody ↦ absurd nobody
    ]
  ];
}

leads-IsReplica : IsReplica leads
unfolding deliver_all
leads-IsReplica = record { within = omega arith; same = refl }

stores-IsReplica : (c : String) → In c leads.raft.connections → IsReplica (stores c)
unfolding deliver_all
stores-IsReplica c (inl e) = rw e (record { within = omega arith; same = refl })
stores-IsReplica c (inr (inl e)) = rw e (record { within = omega arith; same = refl })
stores-IsReplica c (inr (inr nobody)) = absurd nobody

commits_inside : (c : String) → In c leads.raft.connections → (stores c).raft.commited_index ≤ 3
commits_inside c (inl e) = rw e (omega arith)
commits_inside c (inr (inl e)) = rw e (omega arith)
commits_inside c (inr (inr nobody)) = absurd nobody

-- The leader takes a write of a client before the entry that is delivered to it.
abbrev messages : List (LogEntry Operation) → List Message
messages more =
    from_client (set "k" "y")
    ∷ from_raft (record { value = delete "k"; term = 2 })
    ∷ map from_raft more

abbrev messages_of : List (LogEntry Operation) → String → List Message
messages_of log c = map from_raft (drop (stores c).raft.commited_index log)

entries_of-from_raft : (l : List (LogEntry Operation)) → entries_of (map from_raft l) ≡ l
entries_of-from_raft [] = refl
entries_of-from_raft (m ∷ l) = ap (λ x. m ∷ x) (entries_of-from_raft l)

abbrev with_more : List (LogEntry Operation) → Raft Operation
with_more more = on_node_state (set_log (log ++ more)) leads.raft

-- What each has that is in the leader's log.
all_have :
    (more : List (LogEntry Operation))
    → length more ≤ 1
    → let now = beats cluster (with_more more) in
      HasAll (log ++ more) (with_more more).shared now.raft.shared
      × All (λ c. HasAll (log ++ more) (peers.at c) (now.peers.at c)) leads.raft.connections
all_have more few =
    let (_, _, own, others) =
      log_reaches_all cluster.codec cluster.order (codec_of-IsCodec operations) (λ m. Perm.refl m)
        peers has (with_more more) times (more-IsReady more few) (omega arith)
        (λ c i. omega (arith, commits_inside c i)) (omega arith) (omega arith) in
    (own, others)

they_have :
    (more : List (LogEntry Operation))
    → length more ≤ 1
    → (c : String) → In c leads.raft.connections
    → ((beats cluster (with_more more)).peers.at c).delivered
      ≡ (stores c).raft.delivered ++ entries_of (messages_of (log ++ more) c)
they_have more few c i =
    let has : HasAll (log ++ more) (peers.at c) ((beats cluster (with_more more)).peers.at c) =
      All-In (λ d. HasAll (log ++ more) (peers.at d) ((beats cluster (with_more more)).peers.at d))
        c leads.raft.connections (all_have more few).1 i in
    has.delivered
    ∙ ap (λ l. (stores c).raft.delivered ++ l)
        (sym (entries_of-from_raft (drop (stores c).raft.commited_index (log ++ more))))

stores_agree_example :
    let now = beats cluster leads.raft in
    (now.first ≡ done tt)
    × (now.second ≡ done tt)
    × ((generic_handler_interface (messages []) (record leads { raft = now.raft })).storage
        ≡ deliver_all log init_default)
    × All
        (λ c.
          (store_of cluster (messages_of log) leads.raft c).storage ≡ deliver_all log init_default)
        leads.raft.connections
stores_agree_example =
    stores_agree cluster (codec_of-IsCodec operations) (λ m. Perm.refl m) has (messages [])
      (messages_of log) leads (more-IsReady [] (omega arith)) leads-IsReplica stores-IsReplica
      (omega arith) (omega arith) (omega arith) ((all_have [] (omega arith)).0.delivered)
      (they_have [] (omega arith))

abbrev fourth : List (LogEntry Operation)
fourth = record { value = set "k" "x"; term = 2 } ∷ []

write_reaches_all_example :
    (answer leads.storage leads.raft.is_leader (set "k" "x") [] ≡ (done "OK.", set "k" "x" ∷ []))
    × AllRead cluster
        (messages fourth)
        (messages_of (log ++ fourth))
        "k"
        "x"
        (written "k" "x" leads)
unfolding handle_message handle_cmd append_entry
write_reaches_all_example =
    write_reaches_all cluster (codec_of-IsCodec operations) (λ m. Perm.refl m) has (messages fourth)
      (messages_of (log ++ fourth)) "k" "x" leads refl refl (more-IsReady fourth (omega arith))
      leads-IsReplica stores-IsReplica (omega arith) (omega arith)
      ((all_have fourth (omega arith)).0.delivered) (they_have fourth (omega arith))
