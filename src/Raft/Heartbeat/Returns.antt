-- ===== src/Raft/Heartbeat/Returns.antt =====
-- Sending heartbeats returns, with the leader's indices where the next requests can be built.
use quaso.Prelude.{
  ℕ, suc, ◌+◌, ◌<◌, ◌≡◌, refl, String, Option, none, some, List, [], ◌∷◌, arith, ltb, length,
  usize_mod, usize_add, usize_add-eq, Bool-cases, In, inl, inr,
}
use quaso.Prelude.Exec.{Exec, modify, Outcome, done, panic, continue}
use quaso.Raft.Client.{Bytes, Network, send}
use quaso.Raft.Node.{Raft}
use quaso.Raft.Data.{
  Timer, leader, role_eq, State, AppendEntriesResponse, AppendEntriesRequest, append_entries_rpc,
}
use quaso.Raft.Heartbeat.{
  handle_answer, heartbeat_to, heartbeat_loop, record_self, maybe_send_heartbeat,
}
use quaso.Raft.Heartbeat.Bounds.{
  insert-fits, NextFits, append_request_returns, record_answer-NextFits,
}

module _ {T : Type 0} where
  -- Every next index fits the log, whose length and 1 is an index.
  pub record IndicesFit (s : State T) : Type 0 where
    pub word : length s.log + 1 < usize_mod
    pub next : (c : String) → NextFits c s

  -- What comes back over a connection: nothing, or bytes that can be read.
  pub data CanBeRead (net : Network T) : Outcome (Option Bytes) → Type 0 where
    lost : CanBeRead net (done none)
    read :
        (b : Bytes) (resp : AppendEntriesResponse)
        → net.append_response b ≡ some resp
        → CanBeRead net (done (some b))

  -- What the peers answer to requests for entries.
  abbrev pub IsTalking : Network T → List String → Type 0
  IsTalking net conns =
      (i : ℕ) (req : AppendEntriesRequest T) (conn : String)
      → In conn conns
      → CanBeRead net (send net i (append_entries_rpc req) conn)

  -- What a method returns without a panic, and with indices that fit.
  abbrev Returns : Outcome (Unit {0}) × Raft T → Type 0
  Returns (panic, r) = ⊥
  Returns (done u, r) = IndicesFit r.state

  continue-Returns :
      (x : Outcome (Unit {0}) × Raft T) (f : Unit {0} → Exec (Raft T) (Unit {0}))
      → Returns x
      → ((u : Unit {0}) (r' : Raft T) → IndicesFit r'.state → Returns (f u r'))
      → Returns (continue x.0 f x.1)
  continue-Returns (panic, r) f h k = absurd h
  continue-Returns (done u, r) f h k = k u r h

  handle_answer-Returns :
      (net : Network T) (conn : String) (o : Outcome (Option Bytes)) (r : Raft T)
      → CanBeRead net o
      → IndicesFit r.state
      → Returns (continue o (handle_answer net conn (length r.log)) r)
  unfolding handle_answer
  handle_answer-Returns net conn _ r lost fit = fit
  handle_answer-Returns net conn _ r (read b resp e) fit = rw e (record {
    word = fit.word;
    next = λ c. record_answer-NextFits c conn resp.success r.state fit.word fit.next;
  })

  heartbeat_to-Returns :
      (net : Network T) (i : ℕ) (conn : String) (r : Raft T)
      → ((req : AppendEntriesRequest T) → CanBeRead net (send net i (append_entries_rpc req) conn))
      → IndicesFit r.state
      → Returns (heartbeat_to net i conn r)
  unfolding heartbeat_to
  heartbeat_to-Returns net i conn r answer fit =
      let (req, e) = append_request_returns r.node_id conn r.state (fit.next conn) in
      rw e (
        handle_answer-Returns net conn (send net i (append_entries_rpc req) conn) r (answer req)
          fit)

  heartbeat_loop-Returns :
      (net : Network T) (i : ℕ) (conns : List String) (r : Raft T)
      → IsTalking net conns
      → IndicesFit r.state
      → Returns (heartbeat_loop net i conns r)
  unfolding heartbeat_loop
  heartbeat_loop-Returns net i [] r talking fit = fit
  heartbeat_loop-Returns net i (conn ∷ conns) r talking fit =
      continue-Returns (heartbeat_to net i conn r) (λ _. heartbeat_loop net (suc i) conns)
        (heartbeat_to-Returns net i conn r (λ req. talking i req conn (inl refl)) fit)
        (λ u r' fit'.
          heartbeat_loop-Returns net (suc i) conns r' (λ j req c m. talking j req c (inr m)) fit')

  record_self-IndicesFit :
      (t : Timer) (r : Raft T) → IndicesFit r.state → IndicesFit (record_self t r).state
  unfolding record_self
  record_self-IndicesFit t r fit = record {
    word = fit.word;
    next = λ c.
        insert-fits r.listener_addr c (usize_add (length r.log) 1) r.next_index (length r.log + 1)
          (omega (arith, usize_add-eq (length r.log) 1 fit.word)) (fit.next c);
  }

  maybe_send_heartbeat-Returns :
      (net : Network T) (t t' : Timer) (r : Raft T)
      → IsTalking net r.connections
      → IndicesFit r.state
      → Returns (maybe_send_heartbeat net t t' r)
  unfolding maybe_send_heartbeat
  maybe_send_heartbeat-Returns net t t' r talking fit =
      elim (Bool-cases (role_eq r.node_type leader)) [
        | inr other ↦ rw other fit
        | inl leads ↦ elim (Bool-cases (ltb t.now r.heartbeat_timeout)) [
          | inl early ↦ rw (leads, early) fit
          | inr due ↦
              rw (leads, due)
                (continue-Returns (heartbeat_loop net 0 r.connections r)
                  (λ _. modify (record_self t'))
                  (heartbeat_loop-Returns net 0 r.connections r talking fit)
                  (λ u r' fit'. record_self-IndicesFit t' r' fit'))
        ]
      ]

  Returns-done :
      (x : Outcome (Unit {0}) × Raft T) → Returns x → (x.0 ≡ done tt) × IndicesFit x.1.state
  Returns-done (panic, r) h = absurd h
  Returns-done (done u, r) h = (refl, h)

  -- Each request for entries to one of the leader's connections either comes back with nothing
  -- or is answered with bytes that can be read, and every next index is at most the length of
  -- the log and 1, which is below 2^64. Then sending heartbeats returns without a panic, and
  -- leaves every next index within the same bound.
  pub heartbeat_returns :
      (net : Network T) (t t' : Timer) (r : Raft T)
      → IsTalking net r.connections
      → IndicesFit r.state
      → ((maybe_send_heartbeat net t t' r).0 ≡ done tt)
        × IndicesFit (maybe_send_heartbeat net t t' r).1.state
  heartbeat_returns net t t' r talking fit =
      Returns-done (maybe_send_heartbeat net t t' r)
        (maybe_send_heartbeat-Returns net t t' r talking fit)
