-- ===== src/Raft/Heartbeat/Tests.antt =====
-- A heartbeat to two followers that of which one accepts what it is sent, and the other cannot be reached.
use quaso.Prelude.{
  ℕ, ◌≡◌, refl, true, none, some, [], ◌∷◌, arith, if◌then◌else◌, str_eq, Bool-cases, inl, inr,
}
use quaso.Prelude.Exec.{done}
use quaso.HashMap as Map
use quaso.Raft.Client.{Bytes, Network, send, send_bytes}
use quaso.Raft.Server.{appended}
use quaso.Raft.Broadcast.{Codec}
use quaso.Raft.Broadcast.Sample.{numbers, codec_of}
use quaso.Raft.Heartbeat.{maybe_send_heartbeat}
use quaso.Raft.Heartbeat.Bounds.{insert-fits}
use quaso.Raft.Heartbeat.Returns.{IsTalking, lost, read, IndicesFit, heartbeat_returns}
use quaso.Raft.Samples.{timer, node, ahead}

abbrev codec : Codec ℕ
codec = codec_of numbers

abbrev yes_of_two : Bytes
yes_of_two = codec.encode_response (appended (record { node_id = 2; term = 2; success = true }))

-- Bytes that are too short cannot be read, but these can.
too_short : codec.append_response (2 ∷ []) ≡ none
too_short = refl

abbrev network : Network ℕ
network = record {
  serialize = λ req. some (codec.encode req);
  append_response = codec.append_response;
  vote_response = codec.vote_response;
  connect = λ i addr.
      if str_eq addr "b"
      then some (record { takes = λ b. true; answer = λ b. some yes_of_two })
      else none;
}

network-IsTalking : IsTalking network (node ahead).connections
unfolding send send_bytes
network-IsTalking i req conn m = elim (Bool-cases (str_eq conn "b")) [
  | inl e ↦ rw e (read yes_of_two _ refl)
  | inr e ↦ rw e lost
]

ahead-IndicesFit : IndicesFit ahead
unfolding Map.get Map.insert
ahead-IndicesFit = record {
  word = omega arith;
  next = λ c i h. insert-fits "b" c 3 [] 4 (omega arith) (λ j e. cc) i h;
}

heartbeat_returns_example :
    ((maybe_send_heartbeat network timer timer (node ahead)).0 ≡ done tt)
    × IndicesFit (maybe_send_heartbeat network timer timer (node ahead)).1.state
heartbeat_returns_example =
    heartbeat_returns network timer timer (node ahead) network-IsTalking ahead-IndicesFit
