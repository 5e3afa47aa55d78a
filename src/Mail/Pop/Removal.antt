-- ===== src/Mail/Pop/Removal.antt =====
-- A POP3 connection with the state of transaction, up to QUIT.
use qnxstuff.Prelude.{ℕ, ◌≡◌, refl, ap, ◌∙◌, false, List, [], ◌∷◌, ◌++◌, map, length, All, arith}
use qnxstuff.Mail.Text.{capitals}
use qnxstuff.Mail.Pop.Connection.{mbx_tran, Pop, Site}
use qnxstuff.Mail.Pop.Session.{Outcome, again, over, quit, quit_c, pop_line}
use qnxstuff.Mail.Pop.Drop.{
  Request, command_of, request, is_quit, to_remove, marked-to_remove, to_remove-apply, go_on,
  run_lines,
}
use qnxstuff.Mail.Pop.Fits.{Room}
use qnxstuff.Mail.Pop.Tidied.{Stays, pop_line-Stays}
use qnxstuff.Mail.Pop.Marks.{Goes, pop_line-Goes, quit_removes}

-- What a run without QUIT, and a QUIT after it, do with the files.
abbrev Removes : Site → Outcome → List ℕ → Pop → List Request → Type 0
Removes site o q s rs =
    (t : Pop) × (o ≡ again t)
    × (t.removed ≡ s.removed)
    × (t.overrun ≡ s.overrun)
    × (u : Pop) × (run_lines site (q ∷ []) t ≡ over u)
    × (u.removed ≡ s.removed ++ to_remove 0 s.msgs rs)
    × (u.overrun ≡ s.overrun)

Removes-go_on :
    (site : Site) (q : List ℕ) (s : Pop) (r : Request) (rs : List Request) (next : Pop → Outcome)
    (o : Outcome)
    → ((s' : Pop)
        → s'.pstate ≡ mbx_tran
        → Room site.alc_buf_size s'.msgs
        → Removes site (next s') q s' rs)
    → Room site.alc_buf_size s.msgs
    → Goes r s o
    → Stays s o
    → Removes site (go_on next o) q s (r ∷ rs)
Removes-go_on site q s r rs next (again s') k (size, all) d tidy =
    let (t, run, same, dry, u, end, files, dry') = k s' d.state (size, omega (arith, tidy.fewer)) in
    (
      t,
      run,
      same ∙ d.files,
      dry ∙ tidy.prints,
      u,
      end,
      files
          ∙ (ap (λ f. f ++ to_remove 0 s'.msgs rs) d.files
              ∙ ap (λ f. s.removed ++ f)
                  (ap (λ ms. to_remove 0 ms rs) d.drop ∙ to_remove-apply r s.msgs rs)),
      dry' ∙ tidy.prints,
    )
Removes-go_on site q s r rs next (over s') k room d tidy = elim d [ ]

-- In the state of transaction, if the buffer has 64 bytes at least, and room for the list of all
-- messages with 25 bytes for each and 9 more, lines that are not QUIT leave the connection open and
-- remove no file; a QUIT after them ends it and removes, in the order of the list, the files of
-- exactly those messages that are marked: that a DELE has named since the last RSET, or that were
-- marked before if there was no RSET. A negative number names the first message. The field that says
-- whether something was printed behind the buffer stays as it was.
pub quit_removes_marked :
    (site : Site) (ls : List (List ℕ)) (q : List ℕ) (s : Pop)
    → s.pstate ≡ mbx_tran
    → Room site.alc_buf_size s.msgs
    → All (λ l. is_quit (command_of l) ≡ false) ls
    → command_of q ≡ quit_c
    → (t : Pop) × (run_lines site ls s ≡ again t)
      × (t.removed ≡ s.removed)
      × (t.overrun ≡ s.overrun)
      × (u : Pop) × (run_lines site (q ∷ []) t ≡ over u)
      × (u.removed ≡ s.removed ++ to_remove 0 s.msgs (map request ls))
      × (u.overrun ≡ s.overrun)
unfolding run_lines quit
quit_removes_marked site [] q s h room n e = (
  s,
  refl,
  refl,
  refl,
  quit site (record s { buffer = capitals q }),
  quit_removes site q s e,
  ap (λ f. s.removed ++ f) (marked-to_remove 0 s.msgs),
  refl,
)
quit_removes_marked site (l ∷ ls) q s h room n e =
    Removes-go_on site q s (request l) (map request ls) (run_lines site ls)
      (pop_line site (length l) (record s { buffer = l }))
      (λ s' h' room'. quit_removes_marked site ls q s' h' room' n.1 e) room
      (pop_line-Goes site (length l) l s h n.0) (pop_line-Stays site (length l) l s h room)
