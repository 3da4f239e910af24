-- ===== src/Kv/Client.antt =====
-- kv/src/bin/client.rs: the program at the other end of a client's connection. What is typed is a
-- list of lines, `none` where there is no line to read; the colours of the terminal are data.
pub mod Queues
pub mod Wire
pub mod Sent
pub mod Acknowledged
pub mod History
mod Tests
use Prim.Native.Char.{code}
use Prim.Native.String.{[], ◌∷◌}
use mathlib.Core.List
use mathlib.Core.List.{◌++◌}
use quaso.Prelude.{
  String, Bool, true, false, ◌&&◌, ◌||◌, Option, none, some, List, ◌==◌, if◌then◌else◌, str_eq,
}
use quaso.Text.{trim}
use quaso.Kv.Command.{validate}

pub data Color : Type 0 where
  reset grey red green : Color

abbrev starts_with : String → String → Bool
starts_with [] s = true
starts_with (c ∷ p) [] = false
starts_with (c ∷ p) (d ∷ s) = (code c == code d) && starts_with p s

-- `str::contains`, the text that is looked for first.
abbrev contains : String → String → Bool
contains p [] = starts_with p []
contains p (c ∷ s) = starts_with p (c ∷ s) || contains p s

-- A line on the terminal and its colour.
pub record Line : Type 0 where
  pub color : Color
  pub text : String

unfoldable pub color_of : String → Color
color_of str_resp =
    if str_eq str_resp "undefined"
    then grey
    else if contains "ERR" str_resp || contains "WARN" str_resp
    then red
    else if contains "OK" str_resp
    then green
    else reset

unfoldable pub handle_resp : String → Line
unfolding color_of trim
handle_resp resp = let str_resp = trim resp in record { color = color_of str_resp; text = str_resp }

-- How the program stands: it waits for a line, has ended by `exit` or by an error, or panicked.
pub data Ending : Type 0 where
  waiting exited failed panicked : Ending

-- The other end of the connection, what was sent to it, and what was printed.
pub record Terminal (S : Type 0) : Type 0 where
  pub server : S
  pub sent : List String
  pub printed : List Line

-- `is_some`
abbrev pub is_some : {A : Type 0} → Option A → Bool
is_some none = false
is_some (some a) = true

module _ {S : Type 0} where
  abbrev pub print : Line → Terminal S → Terminal S
  print line t = record t { printed = t.printed ++ List.◌∷◌ line List.[] }

  -- `handle_resp(resp_buf)?`
  abbrev pub receive : Option String → Terminal S → Ending × Terminal S
  receive none t = (failed, t)
  receive (some resp) t = (waiting, print (handle_resp resp) t)

  abbrev pub go_on : Ending → Terminal S → Ending × Terminal S → Ending × Terminal S
  go_on waiting t rest = rest
  go_on exited t rest = (exited, t)
  go_on failed t rest = (failed, t)
  go_on panicked t rest = (panicked, t)

-- `serve` answers what is written to the connection; `none` where the connection fails or the answer
-- is not UTF-8.
module _ {S : Type 0} (serve : String → S → Option String × S) where
  unfoldable pub send_line : String → Terminal S → Ending × Terminal S
  send_line buf t =
      let (resp, server) = serve buf t.server in
      receive resp (record t { server = server; sent = t.sent ++ List.◌∷◌ buf List.[] })

  -- One round of the loop of `main`.
  unfoldable pub type_line : String → Terminal S → Ending × Terminal S
  unfolding send_line validate
  type_line buf t =
      if str_eq buf "exit"
      then (exited, t)
      else if is_some (validate buf)
      then send_line buf t
      else (waiting, print (record { color = red; text = "invalid command." }) t)

  unfoldable pub main_loop : List (Option String) → Terminal S → Ending × Terminal S
  unfolding type_line
  main_loop List.[] t = (waiting, t)
  main_loop (List.◌∷◌ none lines) t = (panicked, t)
  main_loop (List.◌∷◌ (some buf) lines) t =
      let (ending, t') = type_line buf t in let rest = main_loop lines t' in go_on ending t' rest

  -- `main`: the connection is accepted or not, and the server's greeting comes before the first line.
  unfoldable pub main : Bool → Option String → List (Option String) → S → Ending × Terminal S
  unfolding main_loop
  main accepted greeting lines server =
      let t : Terminal S = record { server = server; sent = List.[]; printed = List.[] } in
      let (ending, t') = receive greeting t in
      let rest = main_loop lines t' in
      if accepted
      then go_on ending t' rest
      else (exited, print (record { color = red; text = "connection refused." }) t)
