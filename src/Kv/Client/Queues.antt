-- ===== src/Kv/Client/Queues.antt =====
-- What one command of a client does to the queue of the store.
use quaso.Prelude.{
  ◌≡◌, ◌≢◌, ◌⊎◌, inl, inr, refl, ap, ◌∙◌, String, Bool, true, false, some, List, [], ◌∷◌, ◌++◌,
}
use quaso.Prelude.Exec.{Outcome, done, panic}
use quaso.Kv.Command.{Operation, set, get, delete, invalid, parse_command}
use quaso.Kv.Store.{Storage, answer, handle_client}
use quaso.Kv.Store.Clients.{IsWrite}

-- A command leaves the queue as it is, or is a write and goes to its end.
abbrev pub Queues : Bool → Operation → List Operation → List Operation → Type 0
Queues b op queue queue' =
    (queue' ≡ queue) ⊎ (IsWrite op × (b ≡ true) × (queue' ≡ queue ++ op ∷ []))

answer-Queues :
    (sl : Storage) (b : Bool) (op : Operation) (queue : List Operation)
    → op ≢ invalid
    → Queues b op queue (answer sl b op queue).1
unfolding answer
answer-Queues sl b (get k) queue h = inl refl
answer-Queues sl b invalid queue h = absurd (h refl)
answer-Queues sl true (set k v) queue h = inr (tt, refl, refl)
answer-Queues sl false (set k v) queue h = inl refl
answer-Queues sl true (delete k) queue h = inr (tt, refl, refl)
answer-Queues sl false (delete k) queue h = inl refl

pub handle_client-Queues :
    (sl : Storage) (b : Bool) (cmd : String) (queue : List Operation)
    → parse_command cmd ≢ done invalid
    → ((handle_client sl b (some cmd) queue).1 ≡ queue)
      ⊎ ((op : Operation) × (parse_command cmd ≡ done op)
          × Queues b op queue (handle_client sl b (some cmd) queue).1)
unfolding handle_client
handle_client-Queues sl b cmd queue h = go (parse_command cmd) refl
  where
    go :
        (o : Outcome Operation)
        → parse_command cmd ≡ o
        → ((handle_client sl b (some cmd) queue).1 ≡ queue)
          ⊎ ((op : Operation) × (parse_command cmd ≡ done op)
              × Queues b op queue (handle_client sl b (some cmd) queue).1)
    go panic e = inl (rw e refl)
    go (done op) e = inr (op, e, rw e (answer-Queues sl b op queue (λ i. h (e ∙ ap done i))))
