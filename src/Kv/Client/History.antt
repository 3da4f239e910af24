-- ===== src/Kv/Client/History.antt =====
-- `History` of kv/src/bin/client.rs: the commands typed so far and a place among them, counted from 1.
-- `main` has its calls in comments.
use quaso.Prelude.{
  ℕ, String, not, ◌&&◌, List, [], ◌∷◌, ◌++◌, ◌≡◌, refl, ◌==◌, if◌then◌else◌, length, get_elem?,
  usize_add, usize_sub,
}
use quaso.Prelude.Exec.{Exec, Outcome, done, panic, expect}

pub record History : Type 0 where
  pub cmds : List String
  pub pos : ℕ

unfoldable init : History
init = record { cmds = []; pos = 0 }

unfoldable append : String → History → History
append cmd h = record { cmds = h.cmds ++ cmd ∷ []; pos = usize_add h.pos 1 }

abbrev fetched : Outcome String → Outcome (Unit {0})
fetched (done buf) = done tt
fetched panic = panic

-- `buf = self.cmds[self.pos - 1].clone()`: the caller's text is not what is assigned to.
abbrev fetch : Exec History (Unit {0})
fetch h = (fetched (expect (get_elem? h.cmds (usize_sub h.pos 1))), h)

unfoldable fetch_update : ℕ → Exec History (Unit {0})
fetch_update dir h =
    if h.pos == 1 && dir == 1
    then (done tt, h)
    else if dir == 0
    then fetch (record h { pos = usize_sub h.pos 1 })
    else if dir == 1 && not (h.pos == length h.cmds)
    then fetch (record h { pos = usize_add h.pos 1 })
    else fetch h

unfoldable pos_end : History → History
pos_end h = record h { pos = length h.cmds }

-- Up from the first command panics: the index is one below zero.
up_panics : (fetch_update 0 (append "get k" init)).0 ≡ panic
unfolding fetch_update append init
up_panics = refl

-- The way back down from the first command is shut, whatever comes after it.
down_stays :
    let h : History = record { cmds = "get k" ∷ "get l" ∷ []; pos = 1 } in
    fetch_update 1 h ≡ (done tt, h)
unfolding fetch_update
down_stays = refl

at_end : pos_end (append "get k" init) ≡ append "get k" init
unfolding pos_end append init
at_end = refl
