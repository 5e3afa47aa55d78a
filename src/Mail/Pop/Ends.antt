-- ===== src/Mail/Pop/Ends.antt =====
-- The end of a POP3 connection.
use qnxstuff.Prelude.{
  ℕ, zero, suc, ◌-◌, ◌≤◌, ◌<◌, ◌≡◌, refl, inl, inr, subst, false, Bool, List, [], ◌∷◌, ◌++◌, length,
  All, Bool-cases, arith,
}
use qnxstuff.Prelude.Memory.{load32}
use qnxstuff.Mail.Lines.{poke, Read, line, failed, read_string}
use qnxstuff.Mail.Lines.Laws.{concat, IsNonempty}
use qnxstuff.Mail.Lines.Stream.{Reads, read_string_lem}
use qnxstuff.Mail.Text.{capitals, codes}
use qnxstuff.Mail.Mailboxes.{Locks}
use qnxstuff.Mail.Pop.Connection.{PopState, mbx_none, mbx_auth, mbx_tran, Pop, Site}
use qnxstuff.Mail.Pop.Session.{
  Outcome, again, over, noop, PopCommand, apop_c, dele_c, list_c, noop_c, pass_c, quit_c, retr_c,
  rset_c, stat_c, user_c, unsupported, command, perform, pop_line, Run, finished, greeted,
  mark_of_time, proceed, after_read, pop_loop, thread_handler_pop,
}
use qnxstuff.Mail.Pop.Keeps.{
  length-le-poke, stat-Keeps, list_cmd-Keeps, retr-Keeps, dele-Keeps, rset-Keeps,
}
use qnxstuff.Mail.Pop.Within.{Fits, Within, pop_loop-Within, greeted-Safe}
use qnxstuff.Mail.Pop.Locks.{Holds, HoldsNone, View, unlock-View}
use qnxstuff.Mail.Pop.Entering.{Good, Keeps-Fine, apop-Fine, pass-Fine, user_cmd-Fine}

module _ (site : Site) (l : Locks) (free : HoldsNone site.me l) where
  noop-Good :
      (p : PopState) (s : Pop)
      → s.pstate ≡ p
      → View site.me l p s.mbox s.locks
      → Good site l s (noop p s)
  unfolding noop
  noop-Good mbx_tran s p h = rw p (h, omega arith)
  noop-Good mbx_none s p h = h
  noop-Good mbx_auth s p h = h

  perform-Good :
      (result : ℕ) (c : PopCommand) (s : Pop)
      → Holds site.me l s
      → Good site l s (perform site result c s)
  unfolding perform
  perform-Good result apop_c s h = apop-Fine site l s.pstate result s refl h
  perform-Good result user_c s h = user_cmd-Fine site l s.pstate result s refl h
  perform-Good result pass_c s h = pass-Fine site l s.pstate result s refl h
  perform-Good result stat_c s h = Keeps-Fine site l (stat-Keeps site.alc_buf_size s.pstate s) h
  perform-Good result list_c s h = Keeps-Fine site l (list_cmd-Keeps site.alc_buf_size s.pstate s) h
  perform-Good result retr_c s h = Keeps-Fine site l (retr-Keeps site s.pstate s) h
  perform-Good result dele_c s h = Keeps-Fine site l (dele-Keeps s.pstate s) h
  perform-Good result rset_c s h = Keeps-Fine site l (rset-Keeps s.pstate s) h
  perform-Good result noop_c s h = noop-Good s.pstate s refl h
  perform-Good result quit_c s h = unlock-View site.me l s.pstate s.mbox s.locks free h
  perform-Good result unsupported s h = (h, omega arith)

  length-capitals : (bytes : List ℕ) → length (capitals bytes) ≡ length bytes
  length-capitals [] = refl
  length-capitals (a ∷ []) = refl
  length-capitals (a ∷ b ∷ []) = refl
  length-capitals (a ∷ b ∷ c ∷ []) = refl
  length-capitals (a ∷ b ∷ c ∷ d ∷ rest) = refl

  Good-room :
      (o : Outcome) (s t : Pop)
      → length s.buffer ≤ length t.buffer
      → Good site l t o
      → Good site l s o
  Good-room (again s') s t r g = (g.0, omega (arith, g.1))
  Good-room (over s') s t r g = g

  pop_line-Good :
      (result : ℕ) (s : Pop) → Holds site.me l s → Good site l s (pop_line site result s)
  unfolding pop_line
  pop_line-Good result s h =
      let s' : Pop = record s { buffer = capitals s.buffer } in
      let c = command (load32 (capitals s.buffer) 0) in
      Good-room (perform site result c s') s s' (omega (arith, length-capitals s.buffer))
        (perform-Good result c s' h)

  -- The end of a run
  abbrev Ends : Run → Type 0
  Ends (finished s) = s.locks ≡ l
  Ends Run.starved = ⊥

  -- The next turn of the loop ends well from what is left of the stream.
  abbrev Next : (List (List ℕ) → Pop → Run) → ℕ → Type 0
  Next next bytes =
      (net : List (List ℕ)) (s : Pop)
      → length (concat net) < bytes
      → All IsNonempty net
      → site.alc_buf_size ≤ length s.buffer
      → Holds site.me l s
      → Ends (next net s)

  proceed-Ends :
      (next : List (List ℕ) → Pop → Run) (bytes : ℕ) (net : List (List ℕ)) (s : Pop) (o : Outcome)
      → Next next bytes
      → length (concat net) < bytes
      → All IsNonempty net
      → site.alc_buf_size ≤ length s.buffer
      → Good site l s o
      → Ends (proceed next net o)
  proceed-Ends next bytes net s (again s') k less ne b g = k net s' less ne (omega (arith, g.1)) g.0
  proceed-Ends next bytes net s (over s') k less ne b g = g

  after_read-Ends :
      (next : List (List ℕ) → Pop → Run) (net : List (List ℕ)) (s : Pop) (r : Read)
      → Next next (length (concat net))
      → site.alc_buf_size ≤ length s.buffer
      → Holds site.me l s
      → Reads (site.alc_buf_size - 1) 0 [] (length s.buffer) (concat net) r
      → Ends (after_read site next s r)
  after_read-Ends next net s (line n buffer net') k b h (found, fits, count, text, same, ne, less) =
      let t : Pop = record s { buffer = buffer } in
      proceed-Ends next (length (concat net)) net' t (pop_line site n t) k (omega arith) ne
        (omega arith) (pop_line-Good n t h)
  after_read-Ends next net s (failed buffer net') k b h r =
      unlock-View site.me l s.pstate s.mbox s.locks free h
  after_read-Ends next net s Read.starved k b h r = r

  pop_loop-Ends :
      (fuel : ℕ) (net : List (List ℕ)) (s : Pop)
      → length (concat net) < fuel
      → All IsNonempty net
      → site.alc_buf_size ≤ length s.buffer
      → Holds site.me l s
      → Ends (pop_loop fuel site net s)
  unfolding pop_loop
  pop_loop-Ends zero net s f ne b h = absurd (omega arith)
  pop_loop-Ends (suc fuel) net s f ne b h =
      after_read-Ends (pop_loop fuel site) net s (read_string (site.alc_buf_size - 1) s.buffer net)
        (λ net' s' less ne' b' h'. pop_loop-Ends fuel net' s' (omega arith) ne' b' h') b h
        (read_string_lem (site.alc_buf_size - 1) s.buffer net (omega arith) ne)

  finished_of_Ends : (r : Run) → Ends r → (s : Pop) × (r ≡ finished s) × (s.locks ≡ l)
  finished_of_Ends (finished s) e = (s, refl, e)
  finished_of_Ends Run.starved e = elim e [ ]

greeted-Holds :
    (me size : ℕ) (mark : List ℕ) (s : Pop)
    → Holds me s.locks (greeted size mark s)
      × ((greeted size mark s).locks ≡ s.locks)
      × (length s.buffer ≤ length (greeted size mark s).buffer)
unfolding greeted
greeted-Holds me size mark s =
    let b = poke s.buffer 0 (mark ++ (0 ∷ [])) in
    let reply = codes "+OK " ++ (mark ++ (13 ∷ 10 ∷ [])) in
    (
      refl,
      refl,
      omega
          (arith, length-le-poke s.buffer (mark ++ (0 ∷ [])), length-le-poke b (reply ++ (0 ∷ []))),
    )

both_ends :
    (site : Site) (l : Locks) (mark : List ℕ) (fits : Fits site mark) (r : Run)
    → (s : Pop) × (r ≡ finished s) × (s.locks ≡ l)
    → Within site mark fits r
    → (s : Pop) × (r ≡ finished s) × (s.locks ≡ l) × (s.overrun ≡ false)
both_ends site l mark fits r (s, e, free) w = (s, e, free, subst (Within site mark fits) e w)

-- If the fuel exceeds the bytes of the stream, every delivery of the network has bytes, the buffer has
-- the configured size, the thread holds no mutex of a mailbox and has no messages when the connection
-- begins, nothing was printed behind the buffer, and what may be printed for the greeting, the
-- passwords and the directories of the site fits in it, then thread_handler_pop ends, whatever the
-- client sends, the mutexes are as they were, and nothing is printed behind the buffer.
pub session_ends :
    (fuel : ℕ) (site : Site) (curtime : ℕ) (server_fqdn : List ℕ) (sent_ok : Bool)
    (net : List (List ℕ)) (s : Pop)
    → length (concat net) < fuel
    → All IsNonempty net
    → site.alc_buf_size ≤ length s.buffer
    → HoldsNone site.me s.locks
    → length s.msgs ≡ 0
    → s.overrun ≡ false
    → Fits site (mark_of_time curtime server_fqdn)
    → (s' : Pop) × (thread_handler_pop fuel site curtime server_fqdn sent_ok net s ≡ finished s')
      × (s'.locks ≡ s.locks)
      × (s'.overrun ≡ false)
unfolding thread_handler_pop
session_ends fuel site curtime server_fqdn sent_ok net s f ne b free empty safe fits =
    let mark = mark_of_time curtime server_fqdn in
    let s' = greeted site.alc_buf_size mark s in
    let g = greeted-Holds site.me site.alc_buf_size mark s in
    let held = greeted-Safe site mark fits s safe empty in
    elim (Bool-cases sent_ok) [
      | inl e ↦ rw e (
          both_ends site s.locks mark fits (pop_loop fuel site net s')
            (finished_of_Ends site s.locks free (pop_loop fuel site net s')
              (pop_loop-Ends site s.locks free fuel net s' f ne (omega (arith, g.2)) g.0))
            (pop_loop-Within site mark fits fuel net s' held))
      | inr e ↦ rw e (s', refl, g.1, held.0)
    ]
