-- ===== src/Raft/Ping.antt =====
-- `Raft::ping_nodes` of raft/src/server/state.rs, which nothing calls, and `Raft::start_raft_server`.
use quaso.Prelude.{ℕ, suc, ◌≡◌, refl, ap, ◌∙◌, String, Option, none, some, List, [], ◌∷◌}
use quaso.Prelude.Exec.{Exec, Outcome, done, panic, pure, lift, expect, continue, ◌>>=◌, ◌>>◌}
use quaso.Raft.Data.{Timer, PingResponse, RequestPattern, ping_rpc}
use quaso.Raft.Client.{Bytes, Network, send}
use quaso.Raft.Node.{Raft}
use quaso.Raft.Server.{Served, listen}

module _ {T : Type 0} where
  -- An answer that cannot be read panics; one that can is logged.
  abbrev pub log_ping : (Bytes → Option PingResponse) → Option Bytes → Exec (Raft T) (Unit {0})
  log_ping deserialize none = pure tt
  log_ping deserialize (some resp) = do dec_rec ← lift (expect (deserialize resp)); pure tt

  unfoldable pub ping_loop :
      Network T → (Bytes → Option PingResponse) → ℕ → List String → Exec (Raft T) (Unit {0})
  ping_loop net deserialize i [] = pure tt
  ping_loop net deserialize i (conn ∷ conns) = do
    resp ← λ r. (send net i (ping_rpc (record { term = r.node_term; node_id = r.node_id })) conn, r)
    log_ping deserialize resp
    ping_loop net deserialize (suc i) conns

  unfoldable pub ping_nodes : Network T → (Bytes → Option PingResponse) → Exec (Raft T) (Unit {0})
  unfolding ping_loop
  ping_nodes net deserialize r = ping_loop net deserialize 0 r.connections r

  -- The listener's task, on the state that the node shares with it.
  unfoldable pub start_raft_server :
      (Bytes → Option (RequestPattern T)) → List (Timer × Bytes) → Raft T → Served T
  start_raft_server decode conns r = listen decode r.node_id conns r.shared

  continue_unchanged :
      {A : Type 0} (x : Outcome A × Raft T) (f : A → Exec (Raft T) (Unit {0})) (r : Raft T)
      → x.1 ≡ r
      → ((a : A) → (f a x.1).1 ≡ r)
      → (continue x.0 f x.1).1 ≡ r
  continue_unchanged (panic, r') f r same next = same
  continue_unchanged (done a, r') f r same next = next a

  log_ping_unchanged :
      (deserialize : Bytes → Option PingResponse) (o : Option Bytes) (r : Raft T)
      → (log_ping deserialize o r).1 ≡ r
  log_ping_unchanged deserialize none r = refl
  log_ping_unchanged deserialize (some resp) r =
      continue_unchanged (expect (deserialize resp), r) (λ _. pure tt) r refl (λ _. refl)

  -- Whatever the peers answer, and also if an answer cannot be read, the node stays as it is.
  ping_loop_unchanged :
      (net : Network T) (deserialize : Bytes → Option PingResponse) (i : ℕ) (conns : List String)
      (r : Raft T)
      → (ping_loop net deserialize i conns r).1 ≡ r
  unfolding ping_loop
  ping_loop_unchanged net deserialize i [] r = refl
  ping_loop_unchanged net deserialize i (conn ∷ conns) r =
      let req : RequestPattern T = ping_rpc (record { term = r.node_term; node_id = r.node_id }) in
      continue_unchanged (send net i req conn, r) _ r refl
        (λ resp.
          continue_unchanged (log_ping deserialize resp r)
            (λ _. ping_loop net deserialize (suc i) conns) r (log_ping_unchanged deserialize resp r)
            (λ _.
              ap (λ q. (ping_loop net deserialize (suc i) conns q).1)
                (log_ping_unchanged deserialize resp r)
              ∙ ping_loop_unchanged net deserialize (suc i) conns r))

  ping_nodes_unchanged :
      (net : Network T) (deserialize : Bytes → Option PingResponse) (r : Raft T)
      → (ping_nodes net deserialize r).1 ≡ r
  unfolding ping_nodes
  ping_nodes_unchanged net deserialize r = ping_loop_unchanged net deserialize 0 r.connections r
