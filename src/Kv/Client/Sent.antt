-- ===== src/Kv/Client/Sent.antt =====
-- What clients put in the queue of a store: a client's program and the store's task for its connection,
-- one answering the other.
use Prim.Native.String.{len}
use mathlib.Core.List.{append_assoc, append-nil}
use quaso.Prelude.{
  ℕ, ◌+◌, ◌≤◌, ◌<◌, ◌≡◌, ◌≢◌, ◌⊎◌, inl, inr, refl, sym, ap, ◌∙◌, String, Bool, true, false, Option,
  none, some, List, [], ◌∷◌, ◌++◌, arith, str_eq, Bool-cases, Option-cases, All, All-map,
  All-append, In,
}
use quaso.Prelude.Exec.{Outcome, done, panic}
use quaso.Kv.Command.{Operation, invalid, validate, parse_command}
use quaso.Kv.Command.Valid.{validate-parse_command}
use quaso.Kv.Store.{Storage, handle_client}
use quaso.Kv.Store.Clients.{IsWrite}
use quaso.Kv.Client.Wire.{
  Wire, IsWire, Peer, serve_client, idle, one_answered, one_panicked, closed_stays, ValuesFit,
  reply-fits, command_nonempty,
}
use quaso.Kv.Client.Queues.{handle_client-Queues}
use quaso.Kv.Client.{Ending, Terminal, waiting, go_on, receive, send_line, type_line, main_loop}

module _ (leads : ℕ → Bool) where
  -- A `set` or `delete` that one of the lines is, and that came, among the commands from one number up
  -- to another, while the flag was up.
  pub record IsTaken (lines : List (Option String)) (from to : ℕ) (op : Operation) : Type 0 where
    pub line : String
    pub is_typed : In (some line) lines
    pub parsed : parse_command line ≡ done op
    pub is_write : IsWrite op
    pub time : ℕ
    pub after : from ≤ time
    pub before : time < to
    pub flag_up : leads time ≡ true

  chain : {a b c : ℕ} → a ≤ b → b ≤ c → a ≤ c
  chain h k = omega arith

  taken_more :
      {lines more : List (Option String)} {from to from' to' : ℕ}
      → from' ≤ from
      → to ≤ to'
      → ((l : Option String) → In l lines → In l more)
      → (op : Operation) → IsTaken lines from to op
      → IsTaken more from' to' op
  taken_more lower upper f op w = record {
    line = w.line;
    is_typed = f (some w.line) w.is_typed;
    parsed = w.parsed;
    is_write = w.is_write;
    time = w.time;
    after = chain lower w.after;
    before = chain w.before upper;
    flag_up = w.flag_up;
  }

  pub record HasQueued (lines : List (Option String)) (p p' : Peer) : Type 0 where
    pub writes : List Operation
    pub behind : p'.queue ≡ p.queue ++ writes
    pub later : p.served ≤ p'.served
    pub taken : All (IsTaken lines p.served p'.served) writes

  queued_none :
      (lines : List (Option String)) (p p' : Peer)
      → p'.queue ≡ p.queue
      → p.served ≤ p'.served
      → HasQueued lines p p'
  queued_none lines p p' e later = record {
    writes = [];
    later = later;
    behind = e ∙ sym (append-nil p.queue);
    taken = tt;
  }

  queued_more :
      (line : Option String) (lines : List (Option String)) (p p' p'' : Peer)
      → HasQueued (line ∷ []) p p'
      → HasQueued lines p' p''
      → HasQueued (line ∷ lines) p p''
  queued_more line lines p p' p'' h k = record {
    writes = h.writes ++ k.writes;
    behind = k.behind ∙ ap (λ q. q ++ k.writes) h.behind ∙ append_assoc p.queue h.writes k.writes;
    later = chain h.later k.later;
    taken =
        All-append (IsTaken (line ∷ lines) p.served p''.served) h.writes k.writes
          (All-map (taken_more (omega arith) k.later one) h.writes h.taken)
          (All-map (taken_more h.later (omega arith) (λ l. inr)) k.writes k.taken);
  }
    where
      one : (l : Option String) → In l (line ∷ []) → In l (line ∷ lines)
      one l (inl e) = inl e
      one l (inr h) = absurd h

  queued_taken :
      (buf : String) (op : Operation) (queue : List Operation) (served : ℕ) (p' : Peer)
      → parse_command buf ≡ done op
      → IsWrite op
      → leads served ≡ true
      → p'.queue ≡ queue ++ op ∷ []
      → p'.served ≡ served + 1
      → HasQueued (some buf ∷ []) (idle queue served) p'
  queued_taken buf op queue served p' parsed write up behind more = record {
    writes = op ∷ [];
    behind = behind;
    later = omega (arith, more);
    taken = (
      record {
        line = buf;
        is_typed = inl refl;
        parsed = parsed;
        is_write = write;
        time = served;
        after = omega arith;
        before = omega (arith, more);
        flag_up = up;
      },
      tt,
    );
  }

  finished :
      (line : Option String) (lines : List (Option String)) (p : Peer) (ending : Ending)
      (t : Terminal Peer) (rest : Ending × Terminal Peer)
      → HasQueued (line ∷ []) p t.server
      → HasQueued lines t.server rest.1.server
      → HasQueued (line ∷ lines) p (go_on ending t rest).1.server
  finished line lines p waiting t rest h k = queued_more line lines p t.server rest.1.server h k
  finished line lines p _ t rest h k =
      queued_more line lines p t.server t.server h
        (queued_none lines t.server t.server refl (omega arith))

receive-server : (resp : Option String) (t : Terminal Peer) → (receive resp t).1.server ≡ t.server
receive-server none t = refl
receive-server (some resp) t = refl

-- The connection is closed, or nothing on it is unread.
abbrev pub IsIdle : Peer → Type 0
IsIdle p = (p.closed ≡ true) ⊎ ((p.commands ≡ []) × (p.replies ≡ []))

at_idle :
    (p : Peer) → p.closed ≡ false → p.commands ≡ [] → p.replies ≡ [] → p ≡ idle p.queue p.served
at_idle p is_open commands replies i = record {
  queue = p.queue;
  served = p.served;
  closed = is_open i;
  commands = commands i;
  replies = replies i;
}

-- A line of at most 64 bytes.
abbrev pub LineFits : Option String → Type 0
LineFits none = Unit
LineFits (some buf) = len buf ≤ 64

module _ (sl : ℕ → Storage) (leads : ℕ → Bool) (wire : Wire) (law : IsWire wire)
    (values : ValuesFit sl) where
  -- The queue and the connection after a line.
  abbrev Served : String → Peer → Peer → Type 0
  Served buf p p' = HasQueued leads (some buf ∷ []) p p' × IsIdle p'

  from_queue :
      (buf : String) (queue queue' : List Operation) (served : ℕ) (p' : Peer)
      → parse_command buf ≢ done invalid
      → (handle_client (sl served) (leads served) (some buf) queue).1 ≡ queue'
      → p'.queue ≡ queue'
      → p'.served ≡ served + 1
      → HasQueued leads (some buf ∷ []) (idle queue served) p'
  from_queue buf queue queue' served p' valid e at more =
      elim (handle_client-Queues (sl served) (leads served) buf queue valid) [
        | inl same ↦
            queued_none leads (some buf ∷ []) (idle queue served) p' (at ∙ sym e ∙ same)
              (omega (arith, more))
        | inr (op, parsed, inl same) ↦
            queued_none leads (some buf ∷ []) (idle queue served) p' (at ∙ sym e ∙ same)
              (omega (arith, more))
        | inr (op, parsed, inr (write, up, behind)) ↦
            queued_taken leads buf op queue served p' parsed write up (at ∙ sym e ∙ behind) more
      ]

  from_idle :
      (buf : String) (queue : List Operation) (served : ℕ)
      → parse_command buf ≢ done invalid
      → len buf ≤ 64
      → Served buf (idle queue served) (serve_client sl leads wire buf (idle queue served)).1
  from_idle buf queue served valid fits =
      go (handle_client (sl served) (leads served) (some buf) queue) refl
    where
      go :
          (x : Outcome String × List Operation)
          → handle_client (sl served) (leads served) (some buf) queue ≡ x
          → Served buf (idle queue served) (serve_client sl leads wire buf (idle queue served)).1
      go (done reply, queue') e =
          let (nonempty, short) =
            reply-fits sl values served (leads served) buf queue queue' reply e in
          rw
            (one_answered sl leads wire buf queue queue' served reply law
              (command_nonempty buf valid) fits e nonempty short)
            (
              from_queue buf queue queue' served (idle queue' (served + 1)) valid
                  (ap (λ (x : Outcome String × List Operation). x.1) e) refl refl,
              inr (refl, refl),
            )
      go (panic, queue') e =
          let (at, more, closed) =
            one_panicked sl leads wire buf queue queue' served law (command_nonempty buf valid) fits
              e in
          (
            from_queue buf queue queue' served _ valid
                (ap (λ (x : Outcome String × List Operation). x.1) e) at more,
            inl closed,
          )

  from_closed :
      (buf : String) (p : Peer)
      → p.closed ≡ true
      → Served buf p (serve_client sl leads wire buf p).1
  from_closed buf p closed =
      let (same, count, stays) = closed_stays sl leads wire buf p closed in
      (queued_none leads (some buf ∷ []) p _ same (omega (arith, count)), inl stays)

  serve_client-Served :
      (buf : String) (p : Peer)
      → parse_command buf ≢ done invalid
      → len buf ≤ 64
      → IsIdle p
      → Served buf p (serve_client sl leads wire buf p).1
  serve_client-Served buf p valid fits (inl closed) = from_closed buf p closed
  serve_client-Served buf p valid fits (inr (commands, replies)) = elim (Bool-cases p.closed) [
    | inl closed ↦ from_closed buf p closed
    | inr is_open ↦
        rw (at_idle p is_open commands replies) (from_idle buf p.queue p.served valid fits)
  ]

  -- Sends nothing, or a line that is a command.
  type_line-Served :
      (buf : String) (t : Terminal Peer)
      → len buf ≤ 64
      → IsIdle t.server
      → Served buf t.server (type_line (serve_client sl leads wire) buf t).1.server
  unfolding type_line send_line
  type_line-Served buf t fits still = elim (Bool-cases (str_eq buf "exit")) [
    | inl e ↦ rw e (queued_none leads (some buf ∷ []) t.server t.server refl (omega arith), still)
    | inr e ↦ rw e (elim (Option-cases (validate buf)) [
      | inl v ↦ rw v (queued_none leads (some buf ∷ []) t.server t.server refl (omega arith), still)
      | inr ((opr, words), v) ↦
          rw (v, receive-server (serve_client sl leads wire buf t.server).0 _)
            (serve_client-Served buf t.server (validate-parse_command buf opr words v) fits still)
    ])
  ]

  -- Every line has at most 64 bytes, and so has every value of the map as it is sent back. At
  -- first the connection is closed or nothing on it is unread, and a text of at most 64 bytes
  -- that is written when nothing is unread is read whole by one read. After these lines are
  -- typed at a client that is connected to a store, whatever the map and the flag are at each
  -- command, the store's queue has grown at its end, and only by operations `set` and `delete`
  -- that one of the lines is and that the store took, with its flag up, as one of these
  -- commands.
  pub main_loop-HasQueued :
      (lines : List (Option String)) (t : Terminal Peer)
      → All LineFits lines
      → IsIdle t.server
      → HasQueued leads lines t.server (main_loop (serve_client sl leads wire) lines t).1.server
  unfolding main_loop
  main_loop-HasQueued [] t fits idle = queued_none leads [] t.server t.server refl (omega arith)
  main_loop-HasQueued (none ∷ lines) t fits idle =
      queued_none leads (none ∷ lines) t.server t.server refl (omega arith)
  main_loop-HasQueued (some buf ∷ lines) t (fits, more) idle =
      let step = type_line (serve_client sl leads wire) buf t in
      let (queued, still) = type_line-Served buf t fits idle in
      finished leads (some buf) lines t.server step.0 step.1
        (main_loop (serve_client sl leads wire) lines step.1) queued
        (main_loop-HasQueued lines step.1 more still)
