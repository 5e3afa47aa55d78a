-- ===== src/Mail/Pop/Drop.antt =====
-- The messages of a POP3 connection: what the commands mark, and what QUIT removes.
use qnxstuff.Prelude.{
  ℕ, zero, suc, ◌+◌, ◌<◌, ◌≡◌, refl, ap, sym, ◌∙◌, inl, inr, Bool, true, false, not, ◌||◌, Option,
  none, some, List, [], ◌∷◌, ◌==◌, if◌then◌else◌, get_elem?, set, map, length, Bool-cases, arith,
  some_cancel,
}
use qnxstuff.Prelude.Int.{ℤ}
use qnxstuff.Prelude.Memory.{load32}
use qnxstuff.Mail.Text.{capitals}
use qnxstuff.Mail.Pop.Connection.{MsgEnt, Pop, Site}
use qnxstuff.Mail.Pop.Messages.{message_number, steps, kept}
use qnxstuff.Mail.Pop.Session.{
  Outcome, again, over, marked, PopCommand, dele_c, quit_c, rset_c, command, pop_line,
}

-- What a line asks of the messages. A negative number counts as 1.
pub data Request : Type 0 where
  mark : ℕ → Request
  unmark_all nothing : Request

abbrev pub mark_of : Option ℤ → Request
mark_of none = nothing
mark_of (some z) = mark (steps z)

abbrev pub request_by : PopCommand → List ℕ → Request
request_by dele_c line = mark_of (message_number line)
request_by rset_c line = unmark_all
request_by _ line = nothing

abbrev pub command_of : List ℕ → PopCommand
command_of line = command (load32 (capitals line) 0)

unfoldable pub request : List ℕ → Request
request line = request_by (command_of line) (capitals line)

abbrev pub is_quit : PopCommand → Bool
is_quit quit_c = true
is_quit _ = false

-- Whether the message at a place is marked after some requests: it was named since the last reset.
unfoldable pub marked_after : List Request → ℕ → Bool → Bool
marked_after [] i m = m
marked_after (mark k ∷ rs) i m = marked_after rs i (m || i == k)
marked_after (unmark_all ∷ rs) i m = marked_after rs i false
marked_after (nothing ∷ rs) i m = marked_after rs i m

-- The files of the messages that are marked in the end, from a place on.
unfoldable pub to_remove : ℕ → List MsgEnt → List Request → List (List ℕ)
to_remove i [] rs = []
to_remove i (m ∷ ms) rs =
    let rest = to_remove (suc i) ms rs in
    if marked_after rs i (not (m.del == 0)) then m.name ∷ rest else rest

-- The lines of a client in turn, as they come to stand in the buffer.
abbrev pub go_on : (Pop → Outcome) → Outcome → Outcome
go_on next (again s) = next s
go_on next (over s) = over s

unfoldable pub run_lines : Site → List (List ℕ) → Pop → Outcome
unfolding pop_line
run_lines site [] s = again s
run_lines site (l ∷ ls) s =
    go_on (run_lines site ls) (pop_line site (length l) (record s { buffer = l }))

-- One request on the list
pub mark_at : ℕ → List MsgEnt → List MsgEnt
mark_at k [] = []
mark_at zero (m ∷ ms) = record m { del = if m.del == 0 then 1 else m.del } ∷ ms
mark_at (suc k) (m ∷ ms) = m ∷ mark_at k ms

abbrev pub apply : Request → List MsgEnt → List MsgEnt
apply (mark k) ms = mark_at k ms
apply unmark_all ms = map kept ms
apply nothing ms = ms

pub marked-to_remove : (i : ℕ) (ms : List MsgEnt) → marked ms ≡ to_remove i ms []
unfolding marked to_remove marked_after
marked-to_remove i [] = refl
marked-to_remove i (m ∷ ms) = ground (arith, marked-to_remove (suc i) ms)

-- A mark in front of the list is not seen.
mark_before :
    (i k : ℕ) (ms : List MsgEnt) (rs : List Request)
    → k < i
    → to_remove i ms (mark k ∷ rs) ≡ to_remove i ms rs
unfolding to_remove marked_after
mark_before i k [] rs h = refl
mark_before i k (m ∷ ms) rs h = ground (arith, mark_before (suc i) k ms rs)

to_remove-mark_at :
    (i k : ℕ) (ms : List MsgEnt) (rs : List Request)
    → to_remove i (mark_at k ms) rs ≡ to_remove i ms (mark (i + k) ∷ rs)
unfolding to_remove marked_after mark_at
to_remove-mark_at i k [] rs = refl
to_remove-mark_at i zero (m ∷ ms) rs =
    let e : i + 0 ≡ i = omega arith in
    let now : not ((if m.del == 0 then 1 else m.del) == 0) ≡ true = ground arith in
    let here : (not (m.del == 0) || i == i) ≡ true = ground arith in
    rw (e, now, here)
      (ap (λ rest. if marked_after rs i true then m.name ∷ rest else rest)
        (sym (mark_before (suc i) i ms rs (omega arith))))
to_remove-mark_at i (suc k) (m ∷ ms) rs =
    let e : suc i + k ≡ i + suc k = omega arith in
    let ih : to_remove (suc i) (mark_at k ms) rs ≡ to_remove (suc i) ms (mark (i + suc k) ∷ rs) =
      to_remove-mark_at (suc i) k ms rs ∙ ap (λ n. to_remove (suc i) ms (mark n ∷ rs)) e in
    ground (arith, ih)

to_remove-kept :
    (i : ℕ) (ms : List MsgEnt) (rs : List Request)
    → to_remove i (map kept ms) rs ≡ to_remove i ms (unmark_all ∷ rs)
unfolding to_remove marked_after
to_remove-kept i [] rs = refl
to_remove-kept i (m ∷ ms) rs = ground (arith, to_remove-kept (suc i) ms rs)

to_remove-nothing :
    (i : ℕ) (ms : List MsgEnt) (rs : List Request)
    → to_remove i ms rs ≡ to_remove i ms (nothing ∷ rs)
unfolding to_remove marked_after
to_remove-nothing i [] rs = refl
to_remove-nothing i (m ∷ ms) rs = ground (arith, to_remove-nothing (suc i) ms rs)

pub to_remove-apply :
    (r : Request) (ms : List MsgEnt) (rs : List Request)
    → to_remove 0 (apply r ms) rs ≡ to_remove 0 ms (r ∷ rs)
to_remove-apply (mark k) ms rs =
    to_remove-mark_at 0 k ms rs ∙ ap (λ n. to_remove 0 ms (mark n ∷ rs)) (omega arith)
to_remove-apply unmark_all ms rs = to_remove-kept 0 ms rs
to_remove-apply nothing ms rs = to_remove-nothing 0 ms rs

pub mark_at_missing : (k : ℕ) (ms : List MsgEnt) → get_elem? ms k ≡ none → mark_at k ms ≡ ms
unfolding mark_at
mark_at_missing k [] h = refl
mark_at_missing zero (m ∷ ms) h = cc
mark_at_missing (suc k) (m ∷ ms) h = ap (λ l. m ∷ l) (mark_at_missing k ms h)

pub mark_at_found :
    (k : ℕ) (ms : List MsgEnt) (m : MsgEnt)
    → get_elem? ms k ≡ some m
    → mark_at k ms ≡ (if m.del == 0 then set ms k (record m { del = 1 }) else ms)
unfolding mark_at
mark_at_found k [] m h = cc
mark_at_found zero (x ∷ ms) m h =
    rw (some_cancel h) (elim (Bool-cases (m.del == 0)) [ inl e ↦ rw e refl | inr e ↦ rw e refl ])
mark_at_found (suc k) (x ∷ ms) m h =
    let ih = mark_at_found k ms m h in
    elim (Bool-cases (m.del == 0)) [
      | inl e ↦ rw e (ground (arith, ih))
      | inr e ↦ rw e (ground (arith, ih))
    ]
