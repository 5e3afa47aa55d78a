-- ===== src/Mail/Smtp/Delivery.antt =====
-- What DATA of QX-mail/smtp.c makes of the stream.
use qnxstuff.Prelude.{
  ℕ, zero, suc, ◌+◌, ◌-◌, ◌≤◌, ◌<◌, ◌≡◌, refl, ◌≢◌, inl, inr, ap, sym, subst, ◌∙◌, Option, none,
  some, ◌||◌, ltb, List, [], ◌∷◌, ◌++◌, ◌==◌, length, take, drop, Bool-cases, arith, length-append,
  length-take, length-drop, append_assoc,
}
use qnxstuff.Prelude.Memory.{byte_at}
use qnxstuff.Mail.Lines.{received, left_over, poke}
use qnxstuff.Mail.Lines.Laws.{concat, take-poke, length-poke, received-append-left_over}
use qnxstuff.Mail.Lines.Stream.{length-received}
use qnxstuff.Mail.Smtp.Body.{
  last_cr, ends_message, Body, whole, broken, starved, moved, found_cr, cut, read_body, bytes_of,
  with_file, received_line, ready, spooled, store, data_cmd,
}
use qnxstuff.Mail.Smtp.Connection.{
  ss_helo, ss_rcpt, SmtpMsg, Smtp, Site, Outcome, again, over, fault, spool_files,
}
use qnxstuff.Mail.Smtp.Stored.{
  Stores, bytes_of-eq, found_cr_lem, last_cr_found, mark, mark_lem, rest_lem, take-add,
}

-- The loop
abbrev Next : (ℕ → List ℕ → List (List ℕ) → List ℕ → Body) → ℕ → ℕ → Type 0
Next next size bytes =
    (start : ℕ) (b : List ℕ) (net : List (List ℕ)) (written : List ℕ)
    → start ≤ size
    → size ≤ length b
    → length (concat net) < bytes
    → Stores written (take start b ++ concat net) (next start b net written)

regroup : (t m r c : List ℕ) → (t ++ (m ++ r)) ++ c ≡ t ++ (m ++ (r ++ c))
regroup t m r c = simp append_assoc

Stores-append :
    (before t all : List ℕ) (o : Body) → Stores (before ++ t) all o → Stores before (t ++ all) o
Stores-append before t all (whole written buffer net) (text, rest, w, split, more) = (
  t ++ text,
  rest,
  w ∙ append_assoc before t text,
  ap (λ l. t ++ l) split ∙ sym (append_assoc t text (mark ++ (rest ++ concat net))),
  more,
)
Stores-append before t all (broken net) h = tt
Stores-append before t all starved h = h

-- What is moved to the front
module _ (p result : ℕ) (b : List ℕ) (inside : p < result) (room : result ≤ length b) where
  length_moved : length (take (result - p) (drop p b)) ≡ result - p
  length_moved = omega (arith, length-take (result - p) (drop p b), length-drop p b)

  take-moved : take (result - p) (moved result p b) ≡ take (result - p) (drop p b)
  take-moved =
      let t = take (result - p) (drop p b) in
      let e : result - p ≡ 0 + length t = omega (arith, length_moved) in
      ap (λ n. take n (moved result p b)) e ∙ take-poke b 0 t (omega arith)

  length-moved : length (moved result p b) ≡ length b
  length-moved = length-poke b 0 (take (result - p) (drop p b)) (omega (arith, length_moved))

  in_two : take result b ≡ take p b ++ take (result - p) (moved result p b)
  in_two =
      let e : result ≡ p + (result - p) = omega arith in
      ap (λ n. take n b) e ∙ (take-add p (result - p) b ∙ ap (λ l. take p b ++ l) (sym take-moved))

cut-Stores :
    (next : ℕ → List ℕ → List (List ℕ) → List ℕ → Body) (size bytes result : ℕ) (b : List ℕ)
    (net : List (List ℕ)) (written : List ℕ) (o : Option ℕ)
    → Next next size bytes
    → result ≤ size
    → size ≤ length b
    → length (concat net) < bytes
    → ((p : ℕ) → o ≡ some p → (p < result) × (byte_at b p ≡ 13) × (3 ≤ p) × (p ≢ result - 1))
    → Stores written (take result b ++ concat net) (cut next result b net written o)
cut-Stores next size bytes result b net written none k r s less h = k result b net written r s less
cut-Stores next size bytes result b net written (some p) k r s less h =
    let (inside, here, low, last) = h p refl in
    let rest = take (result - p - 1) (drop 4 (drop (p - 3) b)) in
    let front = moved result p b in
    elim (Bool-cases (ends_message p b)) [
      | inl e ↦ rw e (
        take (p - 3) b,
        rest,
        refl,
        ap (λ t. t ++ concat net) (mark_lem p result b here inside low last (omega arith) e)
            ∙ regroup (take (p - 3) b) mark rest (concat net),
        rest_lem p result b here inside low last (omega arith) e,
      )
      | inr e ↦ rw e (
          subst (λ all. Stores written all (next (result - p) front net (written ++ take p b)))
            (sym (append_assoc (take p b) (take (result - p) front) (concat net))
              ∙ ap (λ t. t ++ concat net) (sym (in_two p result b inside (omega arith))))
            (Stores-append written (take p b) (take (result - p) front ++ concat net)
              (next (result - p) front net (written ++ take p b))
              (k (result - p) front net (written ++ take p b) (omega arith)
                (omega (arith, length-moved p result b inside (omega arith))) less)))
    ]

read_body-Stores :
    (fuel size start : ℕ) (b : List ℕ) (net : List (List ℕ)) (written : List ℕ)
    → length (concat net) < fuel
    → start ≤ size
    → size ≤ length b
    → Stores written (take start b ++ concat net) (read_body fuel size start b net written)
unfolding read_body
read_body-Stores zero size start b net written f i s = absurd (omega arith)
read_body-Stores (suc fuel) size start b net written f i s =
    let got = received (size - start) net in
    let net' = left_over (size - start) net in
    let b' = poke b start got in
    let result = start + length got in
    let split = received-append-left_over (size - start) net in
    let fits = length-received (size - start) net in
    let total = ap length split in
    let sum = length-append got (concat net') in
    let o = last_cr result b' in
    elim (Bool-cases (length got == 0)) [
      | inl e ↦ rw e tt
      | inr e ↦ rw e (
          subst
            (λ all.
              Stores written all
                (cut (read_body fuel size) result b' net' written (found_cr result o)))
            (ap (λ t. t ++ concat net') (take-poke b start got (omega arith))
              ∙ (append_assoc (take start b) got (concat net') ∙ ap (λ t. take start b ++ t) split))
            (cut-Stores (read_body fuel size) size fuel result b' net' written (found_cr result o)
              (λ start' c net'' written' i' s' less.
                read_body-Stores fuel size start' c net'' written' less i' s')
              (omega (arith, fits)) (omega (arith, length-poke b start got (omega (arith, fits))))
              (ground (arith, total, sum))
              (λ p h.
                let (found, low, last) = found_cr_lem result p o h in
                let at = last_cr_found result p b' found in (at.0, at.1, low, last))))
    ]

-- The outcome of DATA
abbrev pub Delivers : Site → List ℕ → SmtpMsg → List SmtpMsg → Smtp → Outcome → Type 0
Delivers site user m ms s (again s') =
    (text rest : List ℕ) × (s'.spool
      ≡ record (with_file site m s) { written = received_line site user ++ text } ∷ s.spool)
    × (concat s.net ≡ text ++ (mark ++ (rest ++ concat s'.net)))
    × (0 < length rest)
    × (s'.sstate ≡ ss_helo)
    × (s'.msgs ≡ [])
    × (s'.overrun ≡ s.overrun)
Delivers site user m ms s (over s') =
    (s'.spool ≡ s.spool)
    × (s'.msgs ≡ [])
    × (s'.unlinked ≡ s.unlinked ++ (site.temp_name s.made ∷ spool_files ms))
    × (s'.overrun ≡ s.overrun)
Delivers site user m ms s fault = ⊥

line_fits :
    (site : Site) (user : List ℕ) (s : Smtp)
    → length (received_line site user) + 1 ≤ site.alc_buf_size
    → (s.overrun || ltb site.alc_buf_size (length (received_line site user ++ (0 ∷ []))))
      ≡ s.overrun
line_fits site user s h =
    let e : length (received_line site user ++ (0 ∷ [])) ≡ length (received_line site user) + 1 =
      length-append (received_line site user) (0 ∷ []) in
    ground (arith, e)

spooled-Delivers :
    (site : Site) (user : List ℕ) (m : SmtpMsg) (ms : List SmtpMsg) (s : Smtp) (b : Body)
    → length (received_line site user) + 1 ≤ site.alc_buf_size
    → Stores (received_line site user) (concat s.net) b
    → Delivers site user m ms s
        (spooled (ready site (received_line site user) m ms s) (with_file site m s) b)
unfolding spool_files
spooled-Delivers site user m ms s (whole written buffer net) h (text, rest, w, split, more) = (
  text,
  rest,
  ap (λ t. record (with_file site m s) { written = t } ∷ s.spool) w,
  split,
  more,
  refl,
  refl,
  line_fits site user s h,
)
spooled-Delivers site user m ms s (broken net) h b = (refl, refl, refl, line_fits site user s h)
spooled-Delivers site user m ms s starved h b = b

-- In the state SS_RCPT, with a user and a message, and a buffer of the configured size, in which the
-- line that says where the message came from fits with its NUL, DATA ends, uses no null pointer and
-- leaves the field that says whether something was printed behind the buffer as it was. If the
-- connection goes on, it has no messages and is in the state SS_HELO, and the newest message is
-- first in the queue of the spooler, with the line that says where it came from and then exactly the
-- bytes of the stream in front of a "\r\n.\r"; more than these four bytes was read behind them. If
-- it ends, the queue is as it was, and the file of the message is removed with those of the others.
pub data_cmd_lem :
    (site : Site) (user : List ℕ) (m : SmtpMsg) (ms : List SmtpMsg) (s : Smtp)
    → s.sstate ≡ ss_rcpt
    → s.user ≡ some user
    → s.msgs ≡ m ∷ ms
    → site.alc_buf_size ≤ length s.buffer
    → length (received_line site user) + 1 ≤ site.alc_buf_size
    → Delivers site user m ms s (data_cmd site s.sstate s)
unfolding data_cmd
data_cmd_lem site user m ms s p u l room fits =
    let line = received_line site user in
    let t = ready site line m ms s in
    let stored =
      read_body-Stores (suc (bytes_of s.net)) site.alc_buf_size 0 t.buffer s.net line
        (omega (arith, bytes_of-eq s.net)) (omega arith)
        (omega (
          arith,
          length-append (line ++ (0 ∷ [])) (drop (0 + length (line ++ (0 ∷ []))) s.buffer),
          length-drop (0 + length (line ++ (0 ∷ []))) s.buffer,
        )) in
    subst (λ q. Delivers site user m ms s (data_cmd site q s)) (sym p)
      (subst (λ v. Delivers site user m ms s (store site v s.msgs s)) (sym u)
        (subst (λ q. Delivers site user m ms s (store site (some user) q s)) (sym l)
          (spooled-Delivers site user m ms s
            (read_body (suc (bytes_of s.net)) site.alc_buf_size 0 t.buffer s.net line) fits
            stored)))
