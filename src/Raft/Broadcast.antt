-- ===== src/Raft/Broadcast.antt =====
-- A leader whose peers are the listeners of the other nodes: what it sends is encoded, decoded and
-- handled by `Server::start_listener` (rpc.rs) of the node at that address, and the answer comes back.
pub mod Heard
pub mod Ready
pub mod Sample
pub mod Spread
pub mod Won
mod Tests
use quaso.Prelude.{ℕ, String, Bool, true, Option, none, some, List, [], ◌∷◌, ◌≡◌}
use quaso.Prelude.Exec.{Outcome, done, panic}
use quaso.Raft.Data.{
  NodeId, Shared, Timer, AppendEntriesRequest, AppendEntriesResponse, ElectionVoteResponse,
  RequestPattern, append_entries_rpc,
}
use quaso.Raft.Client.{Bytes, Network}
use quaso.Raft.Node.{Raft}
use quaso.Raft.Heartbeat.{append_request}
use quaso.Raft.Server.{Response, vote, appended, serve}

-- bincode, on requests and on responses.
pub record Codec (T : Type 0) : Type 0 where
  pub encode : RequestPattern T → Bytes
  pub decode : Bytes → Option (RequestPattern T)
  pub encode_response : Response → Bytes
  pub append_response : Bytes → Option AppendEntriesResponse
  pub vote_response : Bytes → Option ElectionVoteResponse

-- It gives back what it was given, and a request is some bytes.
pub record IsCodec {T : Type 0} (codec : Codec T) : Type 0 where
  pub request : (req : RequestPattern T) → codec.decode (codec.encode req) ≡ some req
  pub some_bytes : (req : RequestPattern T) → (b : ℕ) × (bs : Bytes) × (codec.encode req ≡ b ∷ bs)
  pub answer :
      (resp : AppendEntriesResponse)
      → codec.append_response (codec.encode_response (appended resp)) ≡ some resp
  pub ballot :
      (resp : ElectionVoteResponse)
      → codec.vote_response (codec.encode_response (vote resp)) ≡ some resp

-- The nodes by the address that they listen on, and the times at which they handle a request.
pub record Peers (T : Type 0) : Type 0 where
  pub id_of : String → NodeId
  pub time : String → Timer
  pub at : String → Shared T

module _ {T : Type 0} (codec : Codec T) where
  -- What is read from the connection: nothing where the listener's task has ended.
  abbrev pub reply : Outcome (Option Response) → Bytes
  reply (done (some resp)) = codec.encode_response resp
  reply (done none) = []
  reply panic = []

  abbrev pub network_of : Peers T → Network T
  network_of peers = record {
    serialize = λ req. some (codec.encode req);
    append_response = codec.append_response;
    vote_response = codec.vote_response;
    connect = λ i addr. some (record {
      takes = λ b. true;
      answer = λ b.
          some
            (reply (serve codec.decode (peers.id_of addr) (peers.time addr) b (peers.at addr)).0);
    });
  }

  -- A node after the request that the leader has for it.
  abbrev pub hears : Outcome (AppendEntriesRequest T) → Peers T → String → Shared T
  hears panic peers addr = peers.at addr
  hears (done req) peers addr =
      (serve codec.decode (peers.id_of addr) (peers.time addr)
        (codec.encode (append_entries_rpc req)) (peers.at addr)).1

  -- The nodes after a heartbeat of the leader, with the times of the next one.
  abbrev pub after_heartbeat : Raft T → Peers T → (String → Timer) → Peers T
  after_heartbeat r peers time = record {
    id_of = peers.id_of;
    time = time;
    at = λ addr. hears (append_request r.node_id addr r.state) peers addr;
  }
