-- ===== src/Raft/Broadcast/Sample.antt =====
-- Bytes for the tests, a codec that is made of one for the values of the log, and three addresses.
use quaso.Prelude.{
  ℕ, zero, suc, ◌≡◌, ap, refl, Bool, true, false, Option, none, some, List, [], ◌∷◌, if◌then◌else◌,
  length, String, str_eq, str_eq_iff, IsDistinct, inl, inr,
}
use quaso.Raft.Data.{
  LogEntry, RequestPattern, ping_rpc, append_entries_rpc, request_vote_rpc, AppendEntriesResponse,
  ElectionVoteResponse,
}
use quaso.Raft.Client.{Bytes}
use quaso.Raft.Server.{Response, ping, vote, appended}
use quaso.Raft.Broadcast.{Codec, IsCodec}

-- The value at the front of some bytes.
pub record Values (T : Type 0) : Type 0 where
  pub put : T → Bytes → Bytes
  pub get : Bytes → T × Bytes
  pub back : (v : T) (bs : Bytes) → get (put v bs) ≡ (v, bs)

module _ {T : Type 0} (values : Values T) where
  abbrev encode_entries : List (LogEntry T) → Bytes
  encode_entries [] = []
  encode_entries (e ∷ es) = e.term ∷ values.put e.value (encode_entries es)

  abbrev decode_entries : ℕ → Bytes → List (LogEntry T)
  decode_entries zero bs = []
  decode_entries (suc n) [] = []
  decode_entries (suc n) (t ∷ bs) =
      record { value = (values.get bs).0; term = t } ∷ decode_entries n (values.get bs).1

  -- The first number tells the kind of the request.
  abbrev encode : RequestPattern T → Bytes
  encode (ping_rpc req) = 0 ∷ req.term ∷ req.node_id ∷ []
  encode (request_vote_rpc req) =
      1 ∷ req.term ∷ req.candidate_id ∷ req.last_log_index ∷ req.last_log_term ∷ []
  encode (append_entries_rpc req) =
      2
      ∷ req.term
      ∷ req.leader_id
      ∷ req.prev_log_index
      ∷ req.prev_log_term
      ∷ req.leader_commit
      ∷ length req.entries
      ∷ encode_entries req.entries

  abbrev decode : Bytes → Option (RequestPattern T)
  decode (zero ∷ term ∷ id ∷ bs) = some (ping_rpc (record { term = term; node_id = id }))
  decode (suc zero ∷ term ∷ id ∷ index ∷ last ∷ bs) = some (
      request_vote_rpc
        (record { term = term; candidate_id = id; last_log_index = index; last_log_term = last }))
  decode (suc (suc n) ∷ term ∷ id ∷ index ∷ prev ∷ commit ∷ count ∷ bs) = some (
      append_entries_rpc (record {
        term = term;
        leader_id = id;
        prev_log_index = index;
        prev_log_term = prev;
        entries = decode_entries count bs;
        leader_commit = commit;
      }))
  decode _ = none

  abbrev encode_response : Response → Bytes
  encode_response (ping resp) = []
  encode_response (vote resp) = resp.node_id ∷ resp.term ∷ (if resp.vote_granted then 1 else 0) ∷ []
  encode_response (appended resp) = resp.node_id ∷ resp.term ∷ (if resp.success then 1 else 0) ∷ []

  abbrev decode_response : Bytes → Option AppendEntriesResponse
  decode_response (id ∷ term ∷ zero ∷ bs) =
      some (record { node_id = id; term = term; success = false })
  decode_response (id ∷ term ∷ suc n ∷ bs) =
      some (record { node_id = id; term = term; success = true })
  decode_response _ = none

  abbrev decode_vote : Bytes → Option ElectionVoteResponse
  decode_vote (id ∷ term ∷ zero ∷ bs) =
      some (record { node_id = id; term = term; vote_granted = false })
  decode_vote (id ∷ term ∷ suc n ∷ bs) =
      some (record { node_id = id; term = term; vote_granted = true })
  decode_vote _ = none

  abbrev pub codec_of : Codec T
  codec_of = record {
    encode = encode;
    decode = decode;
    encode_response = encode_response;
    append_response = decode_response;
    vote_response = decode_vote;
  }

  decode_entries-encode_entries :
      (es : List (LogEntry T)) → decode_entries (length es) (encode_entries es) ≡ es
  decode_entries-encode_entries [] = refl
  decode_entries-encode_entries (e ∷ es) =
      rw (values.back e.value (encode_entries es))
        (ap (λ l. e ∷ l) (decode_entries-encode_entries es))

  decode-encode : (req : RequestPattern T) → decode (encode req) ≡ some req
  decode-encode (ping_rpc req) = refl
  decode-encode (request_vote_rpc req) = refl
  decode-encode (append_entries_rpc req) =
      ap (λ es. some (append_entries_rpc (record req { entries = es })))
        (decode_entries-encode_entries req.entries)

  encode_some : (req : RequestPattern T) → (b : ℕ) × (bs : Bytes) × (encode req ≡ b ∷ bs)
  encode_some (ping_rpc req) = (_, _, refl)
  encode_some (request_vote_rpc req) = (_, _, refl)
  encode_some (append_entries_rpc req) = (_, _, refl)

  decode_response-encode_response :
      (resp : AppendEntriesResponse) → decode_response (encode_response (appended resp)) ≡ some resp
  decode_response-encode_response resp = go resp.node_id resp.term resp.success
    where
      go :
          (id term : ℕ) (b : Bool)
          → decode_response
              (encode_response (appended (record { node_id = id; term = term; success = b })))
            ≡ some (record { node_id = id; term = term; success = b })
      go id term true = refl
      go id term false = refl

  decode_vote-encode_response :
      (resp : ElectionVoteResponse) → decode_vote (encode_response (vote resp)) ≡ some resp
  decode_vote-encode_response resp = go resp.node_id resp.term resp.vote_granted
    where
      go :
          (id term : ℕ) (b : Bool)
          → decode_vote
              (encode_response (vote (record { node_id = id; term = term; vote_granted = b })))
            ≡ some (record { node_id = id; term = term; vote_granted = b })
      go id term true = refl
      go id term false = refl

  pub codec_of-IsCodec : IsCodec codec_of
  codec_of-IsCodec = record {
    request = decode-encode;
    some_bytes = encode_some;
    answer = decode_response-encode_response;
    ballot = decode_vote-encode_response;
  }

abbrev pub first : Bytes → ℕ × Bytes
first [] = (0, [])
first (v ∷ bs) = (v, bs)

abbrev pub numbers : Values ℕ
numbers = record { put = λ v bs. v ∷ bs; get = first; back = λ v bs. refl }

differ : (x y : String) → str_eq x y ≡ false → ¬ (x ≡ y)
differ x y h e = cc ((str_eq_iff x y).1 e)

pub three_addresses : IsDistinct {A = String} ("a" ∷ "b" ∷ "c" ∷ [])
three_addresses = (
  λ i. elim i [
    | inl e ↦ differ "a" "b" refl e
    | inr j ↦ elim j [ inl e ↦ differ "a" "c" refl e | inr nobody ↦ nobody ]
  ],
  (λ i. elim i [ inl e ↦ differ "b" "c" refl e | inr nobody ↦ nobody ], (λ i. i, tt)),
)

pub three_keys : IsDistinct {A = String} ("b" ∷ "c" ∷ "a" ∷ [])
three_keys = (
  λ i. elim i [
    | inl e ↦ differ "b" "c" refl e
    | inr j ↦ elim j [ inl e ↦ differ "b" "a" refl e | inr nobody ↦ nobody ]
  ],
  (λ i. elim i [ inl e ↦ differ "c" "a" refl e | inr nobody ↦ nobody ], (λ i. i, tt)),
)
