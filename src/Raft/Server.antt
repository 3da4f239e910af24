-- ===== src/Raft/Server.antt =====
-- `Server::ping_node` and `Server::start_listener` of raft/src/server/rpc.rs: the task that takes
-- one connection after the other, and the handler that each request goes to. A panic in a handler
-- ends the task.
pub mod Ballots
pub mod DoubleVote
mod Tests
use quaso.Prelude.{ℕ, Bool, true, false, Option, none, some, List, [], ◌∷◌}
use quaso.Prelude.Exec.{Exec, done, panic, pure, lift, expect, ◌>>=◌}
use quaso.Raft.Data.{
  NodeId, State, Shared, Timer, PingRequest, PingResponse, ElectionVoteResponse,
  AppendEntriesResponse, RequestPattern, ping_rpc, append_entries_rpc, request_vote_rpc,
}
use quaso.Raft.Vote.{request_vote}
use quaso.Raft.Append.{append_entries}

pub data Response : Type 0 where
  ping : PingResponse → Response
  vote : ElectionVoteResponse → Response
  appended : AppendEntriesResponse → Response

-- The listener's task: the responses that it writes, and whether it still runs at the end.
pub record Served (T : Type 0) : Type 0 where
  pub shared : Shared T
  pub responses : List (Option Response)
  pub running : Bool

module _ {T : Type 0} where
  unfoldable pub ping_node : NodeId → PingRequest → State T → PingResponse
  ping_node node_id req s = record { term = s.node_term; node_id = node_id }

  -- The `match req`.
  unfoldable pub dispatch : NodeId → Timer → RequestPattern T → Exec (Shared T) Response
  unfolding ping_node
  dispatch node_id t (ping_rpc req) s = (done (ping (ping_node node_id req s.state)), s)
  dispatch node_id t (request_vote_rpc req) s =
      let (resp, s') = request_vote node_id t req s.state in
      (done (vote resp), record s { state = s' })
  dispatch node_id t (append_entries_rpc req) s =
      (do resp ← append_entries node_id t req; pure (appended resp)) s

  -- One connection: what was read, and `decode` is `bincode::deserialize`.
  unfoldable pub serve :
      (List ℕ → Option (RequestPattern T))
      → NodeId
      → Timer
      → List ℕ
      → Exec (Shared T) (Option Response)
  unfolding dispatch
  serve decode node_id t [] = pure none
  serve decode node_id t (b ∷ buf) = do
    req ← lift (expect (decode (b ∷ buf)))
    resp ← dispatch node_id t req
    pure (some resp)

  unfoldable pub listen :
      (List ℕ → Option (RequestPattern T)) → NodeId → List (Timer × List ℕ) → Shared T → Served T
  listen decode node_id [] s = record { shared = s; responses = []; running = true }
  listen decode node_id ((t, buf) ∷ conns) s =
      let (o, s') = serve decode node_id t buf s in
      elim o [
        | panic ↦ record { shared = s'; responses = []; running = false }
        | done resp ↦
            let rest = listen decode node_id conns s' in
            record rest { responses = resp ∷ rest.responses }
      ]
