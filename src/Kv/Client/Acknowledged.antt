-- ===== src/Kv/Client/Acknowledged.antt =====
-- A write from the line that a client types to the queue of a leader and back.
use Prim.Native.String.{[], ◌∷◌, len}
use quaso.Prelude.{
  ℕ, ◌+◌, ◌≡◌, ◌≢◌, ◌≤◌, arith, inl, inr, refl, ap, String, Bool, true, false, some, List, ◌++◌,
  str_eq, str_eq_iff, Bool-cases, Option-cases,
}
use quaso.Prelude.Exec.{done}
use quaso.Text.{is_whitespace, is_empty, trim_start, trim_end}
use quaso.Kv.Command.{Operation, set, get, delete, invalid, operation_of, validate, parse_command}
use quaso.Kv.Command.RoundTrip.{typed, IsTypable, parse_command-typed}
use quaso.Kv.Store.{Storage, handle_client}
use quaso.Kv.Store.Clients.{IsWrite, answer-write}
use quaso.Kv.Client.{waiting, Line, green, handle_resp, send_line, type_line, is_some}
use quaso.Kv.Client.Wire.{Wire, IsWire, serve_client, idle, one_answered, command_nonempty}

abbrev first_is_e : String → Bool
first_is_e [] = false
first_is_e (c ∷ s) = str_eq (c ∷ []) "e"

typed-exit : (op : Operation) → str_eq (typed op) "exit" ≡ false
typed-exit op = elim (Bool-cases (str_eq (typed op) "exit")) [
  | inr e ↦ e
  | inl e ↦ absurd (differ op (ap first_is_e ((str_eq_iff (typed op) "exit").0 e)))
]
  where
    differ : (op : Operation) → first_is_e (typed op) ≢ true
    differ (set k v) e = cc
    differ (get k) e = cc
    differ (delete k) e = cc
    differ invalid e = cc

typed-validate :
    (op : Operation) → IsTypable op → op ≢ invalid → is_some (validate (typed op)) ≡ true
unfolding parse_command
typed-validate op h valid = elim (Option-cases (validate (typed op))) [
  | inl e ↦
      let none_parsed : parse_command (typed op) ≡ done invalid = ap operation_of e in
      absurd (valid (cc (parse_command-typed op h, none_parsed)))
  | inr (r, e) ↦ rw e refl
]

write-valid : (op : Operation) → IsWrite op → op ≢ invalid
write-valid (set k v) w e = cc
write-valid (delete k) w e = cc
write-valid (get k) w e = absurd w
write-valid invalid w e = absurd w

module _ (sl : ℕ → Storage) (leads : ℕ → Bool) (wire : Wire) where
  handle_client-write :
      (op : Operation) (m : Storage) (queue : List Operation)
      → IsTypable op
      → IsWrite op
      → handle_client m true (some (typed op)) queue ≡ (done "OK.", queue ++ List.◌∷◌ op List.[])
  unfolding handle_client
  handle_client-write op m queue h write =
      rw (parse_command-typed op h) (answer-write m true op queue write refl)

  acknowledged : handle_resp "OK." ≡ record { color = green; text = "OK." }
  unfolding handle_resp trim_start trim_end is_whitespace
  acknowledged = refl

  typed_nonempty : (op : Operation) → IsTypable op → op ≢ invalid → typed op ≢ ""
  typed_nonempty op h valid =
      command_nonempty (typed op) (λ e. valid (cc (parse_command-typed op h, e)))

  write_served :
      (op : Operation) (queue : List Operation) (served : ℕ)
      → IsWire wire
      → IsTypable op
      → IsWrite op
      → len (typed op) ≤ 64
      → leads served ≡ true
      → serve_client sl leads wire (typed op) (idle queue served)
        ≡ (some "OK.", idle (queue ++ List.◌∷◌ op List.[]) (served + 1))
  unfolding is_empty
  write_served op queue served law h write fits up =
      one_answered sl leads wire (typed op) queue (queue ++ List.◌∷◌ op List.[]) served "OK." law
        (typed_nonempty op h (write-valid op write)) fits
        (rw up (handle_client-write op (sl served) queue h write)) (λ e. cc) (omega arith)

  -- A `set` or `delete` can be typed as a line of at most 64 bytes, and a text of at most 64
  -- bytes that is written when nothing is unread is read whole by one read. Typed at a client
  -- of a store whose connection is open with nothing unread, and whose flag is up, it goes to
  -- the end of the store's queue, and the client prints the acknowledgement in green and waits
  -- for the next line, again with nothing unread.
  pub typed_write_acknowledged :
      (op : Operation) (queue : List Operation) (served : ℕ) (sent : List String)
      (printed : List Line)
      → IsWire wire
      → IsTypable op
      → IsWrite op
      → len (typed op) ≤ 64
      → leads served ≡ true
      → type_line
          (serve_client sl leads wire)
          (typed op)
          (record { server = idle queue served; sent = sent; printed = printed })
        ≡ (
          waiting,
          record {
            server = idle (queue ++ List.◌∷◌ op List.[]) (served + 1);
            sent = sent ++ List.◌∷◌ (typed op) List.[];
            printed = printed ++ List.◌∷◌ (record { color = green; text = "OK." }) List.[];
          },
        )
  unfolding type_line send_line
  typed_write_acknowledged op queue served sent printed law h write fits up =
      rw
        (
          typed-exit op,
          typed-validate op h (write-valid op write),
          write_served op queue served law h write fits up,
          acknowledged,
        )
        refl
