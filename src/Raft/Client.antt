-- ===== src/Raft/Client.antt =====
-- `Client::send` of raft/src/server/rpc.rs, over what it calls: bincode, and the sockets.
use quaso.Prelude.{ℕ, String, Bool, Option, none, some, List, if◌then◌else◌}
use quaso.Prelude.Exec.{Outcome, done, panic}
use quaso.Raft.Data.{RequestPattern, AppendEntriesResponse, ElectionVoteResponse}

abbrev pub Bytes : Type 0
Bytes = List ℕ

-- A connected peer: whether it takes what is written, and what is then read from it.
pub record Peer : Type 0 where
  pub takes : Bytes → Bool
  pub answer : Bytes → Option Bytes

-- bincode, and the peers: `connect i addr` is the result of the i-th connection of a loop.
pub record Network (T : Type 0) : Type 0 where
  pub serialize : RequestPattern T → Option Bytes
  pub append_response : Bytes → Option AppendEntriesResponse
  pub vote_response : Bytes → Option ElectionVoteResponse
  pub connect : ℕ → String → Option Peer

unfoldable pub send_bytes : Option Bytes → Option Peer → Outcome (Option Bytes)
send_bytes none peer = done none
send_bytes (some ser_req) none = done none
send_bytes (some ser_req) (some peer) =
    if peer.takes ser_req then done (peer.answer ser_req) else panic

module _ {T : Type 0} where
  -- `stream.write_all(&ser_req).await.unwrap()` is the one panic.
  unfoldable pub send : Network T → ℕ → RequestPattern T → String → Outcome (Option Bytes)
  unfolding send_bytes
  send net i req addr = send_bytes (net.serialize req) (net.connect i addr)
