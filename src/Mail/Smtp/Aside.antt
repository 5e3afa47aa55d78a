-- ===== src/Mail/Smtp/Aside.antt =====
-- What AUTH of QX-mail/smtp.c leaves alone.
use qnxstuff.Prelude.{
  ℕ, ◌≡◌, refl, inl, inr, Bool, true, false, Option, none, some, List, ◌++◌, ◌==◌, length, set,
  take, drop, Bool-cases,
}
use qnxstuff.Prelude.Strings.{stricmp_eq, c_string}
use qnxstuff.Mail.Lines.{Read, line, failed, read_string, poke}
use qnxstuff.Mail.Md5.{zeros}
use qnxstuff.Mail.Text.{codes, split_at, strcmp_eq, memicmp_eq}
use qnxstuff.Mail.Mailboxes.{Mailbox, find_mailbox}
use qnxstuff.Mail.Smtp.Connection.{ss_helo, Smtp, Site, Outcome, again, over, fault, send, crlf}
use qnxstuff.Mail.Smtp.Auth.{
  after_read, admitted, password_read, check_login, login_password, name_decoded, login_name,
  auth_login, cram_md5, check_hash, response_split, response_decoded, after_response, challenge_of,
  auth_cram, auth, decoded,
}

-- AUTH changes neither the state nor the messages nor the queue.
abbrev pub Aside : Smtp → Outcome → Type 0
Aside s (again s') = (s'.sstate ≡ s.sstate) × (s'.msgs ≡ s.msgs) × (s'.spool ≡ s.spool)
Aside s (over s') = s'.spool ≡ s.spool
Aside s fault = Unit

admitted-Aside :
    (s t : Smtp) → t.sstate ≡ s.sstate → t.msgs ≡ s.msgs → t.spool ≡ s.spool → Aside s (admitted t)
unfolding admitted
admitted-Aside s t p m q = elim (Bool-cases (t.auth == 0)) [
  | inl e ↦ rw e q
  | inr e ↦ rw e (p, m, q)
]

password_read-Aside :
    (site : Site) (name : List ℕ) (m : Mailbox) (d : Bool × List ℕ) (s : Smtp)
    → Aside s (admitted (password_read site name m d s))
password_read-Aside site name m (false, bytes) s = admitted-Aside s _ refl refl refl
password_read-Aside site name m (true, bytes) s =
    elim (Bool-cases (strcmp_eq m.password (c_string (decoded bytes s).buffer))) [
      | inl e ↦ rw e (admitted-Aside s _ refl refl refl)
      | inr e ↦ rw e (admitted-Aside s _ refl refl refl)
    ]

check_login-Aside :
    (site : Site) (name : List ℕ) (n : ℕ) (found : Option (ℕ × Mailbox)) (s : Smtp)
    → Aside s (check_login site name n found s)
check_login-Aside site name n none s = admitted-Aside s s refl refl refl
check_login-Aside site name n (some (i, m)) s =
    password_read-Aside site name m (site.decode64 (take n s.buffer)) s

after_read-Aside :
    (next : ℕ → Smtp → Outcome) (s : Smtp) (r : Read)
    → ((n : ℕ) (t : Smtp) → Aside t (next n t))
    → Aside s (after_read next s r)
after_read-Aside next s (line n buffer net) k = k n (record s { buffer = buffer; net = net })
after_read-Aside next s (failed buffer net) k = refl
after_read-Aside next s Read.starved k = tt

name_decoded-Aside : (site : Site) (d : Bool × List ℕ) (s : Smtp) → Aside s (name_decoded site d s)
unfolding login_password
name_decoded-Aside site (false, bytes) s = (refl, refl, refl)
name_decoded-Aside site (true, bytes) s =
    let s' = send (codes "334 UGFzc3dvcmQ6" ++ crlf) (decoded bytes s) in
    let name = c_string s'.buffer in
    after_read-Aside (login_password site name) s' (read_string 256 s'.buffer s'.net)
      (λ n t. check_login-Aside site name n (find_mailbox name site.mbx) (record t { auth = 0 }))

auth_login-Aside : (site : Site) (s : Smtp) → Aside s (auth_login site s)
unfolding auth_login login_name
auth_login-Aside site s =
    let s' = send (codes "334 VXNlcm5hbWU6" ++ crlf) s in
    after_read-Aside (login_name site) s' (read_string 256 s'.buffer s'.net)
      (λ n t. name_decoded-Aside site (site.decode64 (take n t.buffer)) t)

check_hash-Aside :
    (challenge hash : List ℕ) (found : Option (ℕ × Mailbox)) (s : Smtp)
    → Aside s (check_hash challenge hash found s)
check_hash-Aside challenge hash none s = admitted-Aside s s refl refl refl
check_hash-Aside challenge hash (some (i, m)) s =
    elim (Bool-cases (memicmp_eq 32 hash (cram_md5 m.password challenge))) [
      | inl e ↦ rw e (admitted-Aside s _ refl refl refl)
      | inr e ↦ rw e (admitted-Aside s _ refl refl refl)
    ]

response_split-Aside :
    (site : Site) (challenge : List ℕ) (o : Option (List ℕ × List ℕ)) (s : Smtp)
    → Aside s (response_split site challenge o s)
response_split-Aside site challenge none s = (refl, refl, refl)
response_split-Aside site challenge (some (name, hash)) s =
    check_hash-Aside challenge hash (find_mailbox name site.mbx)
      (record s { user = some name; buffer = set s.buffer (length name) 0 })

response_decoded-Aside :
    (site : Site) (challenge : List ℕ) (d : Bool × List ℕ) (s : Smtp)
    → Aside s (response_decoded site challenge d s)
response_decoded-Aside site challenge (false, bytes) s = (refl, refl, refl)
response_decoded-Aside site challenge (true, bytes) s =
    let s' = decoded bytes s in
    response_split-Aside site challenge (split_at b' ' (c_string s'.buffer)) s'

after_response-Aside :
    (site : Site) (challenge : List ℕ) (s : Smtp) (r : Read)
    → Aside s (after_response site challenge s r)
after_response-Aside site challenge s (line n response net) =
    response_decoded-Aside site challenge (site.decode64 (take n response)) (record s { net = net })
after_response-Aside site challenge s (failed response net) = refl
after_response-Aside site challenge s Read.starved = tt

auth_cram-Aside : (site : Site) (s : Smtp) → Aside s (auth_cram site s)
unfolding auth_cram
auth_cram-Aside site s =
    let challenge = challenge_of site in
    let text = codes "334 " ++ (site.encode64 challenge ++ crlf) in
    let s' = send text (record s { greeting = some challenge; buffer = poke s.buffer 0 text }) in
    after_response-Aside site challenge s' (read_string 511 (poke (zeros 512) 0 challenge) s'.net)

pub auth_helo-Aside : (site : Site) (s : Smtp) → Aside s (auth site ss_helo s)
unfolding auth
auth_helo-Aside site s =
    let way = c_string (drop 5 s.buffer) in
    elim (Bool-cases (stricmp_eq way (codes "LOGIN"))) [
      | inl e ↦ rw e (auth_login-Aside site s)
      | inr e ↦ rw e (elim (Bool-cases (stricmp_eq way (codes "CRAM-MD5"))) [
        | inl f ↦ rw f (auth_cram-Aside site s)
        | inr f ↦ rw f (refl, refl, refl)
      ])
    ]
