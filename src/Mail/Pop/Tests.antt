-- ===== src/Mail/Pop/Tests.antt =====
-- POP3 connections of one client, and the theorems at them.
use qnxstuff.Prelude.{
  length, Bool-cases, some_cancel, ap, subst, if◌then◌else◌, ◌*◌, inl, inr, ◌+◌, ◌≤◌, ℕ, zero, suc,
  ◌≡◌, refl, true, false, none, some, List, [], ◌∷◌, ◌++◌, map, All, arith,
}
use qnxstuff.Prelude.Strings.{stricmp_eq}
use qnxstuff.Mail.Lines.{read_string, cr_place}
use qnxstuff.Mail.Md5.{zeros}
use qnxstuff.Mail.Text.{codes, strcmp_eq, atoi, digits_value, decimal}
use qnxstuff.Mail.Mailboxes.{Mailbox, find_mailbox, unlock}
use qnxstuff.Mail.Pop.Connection.{mbx_none, mbx_tran, MsgEnt, DirEnt, Pop, Site}
use qnxstuff.Mail.Pop.Login.{pop_build_session}
use qnxstuff.Mail.Pop.Messages.{message_number, chosen}
use qnxstuff.Mail.Pop.Session.{
  again, over, marked, quit_c, command, pop_line, Run, finished, greeted, mark_of_time,
  thread_handler_pop,
}
use qnxstuff.Mail.Pop.Locks.{HoldsNone}
use qnxstuff.Mail.Pop.Within.{Fits}
use qnxstuff.Mail.Pop.Ends.{session_ends}
use qnxstuff.Mail.Pop.Drop.{command_of, request, is_quit, marked_after, to_remove, run_lines}
use qnxstuff.Mail.Pop.Removal.{quit_removes_marked}

abbrev ann : Mailbox
ann = record { user = codes "ann"; password = codes "pw" }

abbrev file : List ℕ → ℕ → DirEnt
file name size = record { d_name = name; is_regular = true; st_size = size }

abbrev files : List DirEnt
files = file (codes "one") 10 ∷ file (codes "two") 20 ∷ []

-- Two messages wait in the one mailbox.
abbrev site : Site
site = record {
  me = 7;
  mbx = ann ∷ [];
  alc_buf_size = 64;
  directory = λ user. if strcmp_eq user (codes "ann") then some files else none;
  contents = λ _. some (codes "text");
}

abbrev fresh : Pop
fresh = record {
  pstate = mbx_none;
  user = none;
  greeting = [];
  msgs = [];
  mbox = none;
  buffer = zeros 64;
  locks = none ∷ [];
  removed = [];
  sent = [];
  overrun = false;
}

abbrev typed : List ℕ → List ℕ
typed text = text ++ (13 ∷ 10 ∷ [])

abbrev visit : List (List ℕ)
visit =
    typed (codes "USER ann")
    ∷ typed (codes "PASS pw")
    ∷ typed (codes "dele 1")
    ∷ typed (codes "QUIT")
    ∷ []

abbrev removed_by : Run → List (List ℕ)
removed_by (finished s) = s.removed
removed_by Run.starved = []

-- The list has the file that was found last in front.
visit_removes :
    removed_by (thread_handler_pop 64 site 0 (codes "x") true visit fresh) ≡ codes "ann/two" ∷ []
unfolding strcmp_eq thread_handler_pop greeted read_string cr_place pop_line find_mailbox stricmp_eq
    pop_build_session chosen atoi marked decimal unlock
visit_removes = refl

-- Without QUIT nothing is removed.
lost_visit :
    removed_by (
      thread_handler_pop 64 site 0
        (codes "x")
        true
        (typed (codes "USER ann") ∷ typed (codes "PASS pw") ∷ typed (codes "DELE 1") ∷ [])
        fresh)
    ≡ []
unfolding strcmp_eq thread_handler_pop greeted read_string cr_place pop_line find_mailbox stricmp_eq
    pop_build_session chosen atoi marked decimal unlock
lost_visit = refl

fresh-HoldsNone : HoldsNone 7 (none ∷ [])
fresh-HoldsNone zero e = cc
fresh-HoldsNone (suc i) e = cc

found_is_ann :
    (name : List ℕ) (i : ℕ) (m : Mailbox)
    → find_mailbox name (ann ∷ []) ≡ some (i, m)
    → length m.password ≡ 2
unfolding find_mailbox
found_is_ann name i m e = elim (Bool-cases (stricmp_eq (codes "ann") name)) [
  | inl same ↦ ground (arith, e, same)
  | inr other ↦ ground (arith, e, other)
]

same_length : (s t : List ℕ) → strcmp_eq s t ≡ true → length s ≡ length t
unfolding strcmp_eq
same_length [] [] h = refl
same_length [] (d ∷ t) h = ground arith
same_length (c ∷ s) [] h = ground arith
same_length (c ∷ s) (d ∷ t) h = ap suc (same_length s t (ground (arith, h)))

abbrev Small : List ℕ → List DirEnt → Type 0
Small user es = All (λ e. length user + length e.d_name + 2 ≤ 64) es × (25 * length es + 9 ≤ 64)

directory-Small : (user : List ℕ) (es : List DirEnt) → site.directory user ≡ some es → Small user es
directory-Small user es e = elim (Bool-cases (strcmp_eq user (codes "ann"))) [
  | inl same ↦
      let here : files ≡ es = some_cancel (rw same at e) in
      let l = same_length user (codes "ann") same in
      subst (Small user) here ((omega (arith, l), (omega (arith, l), tt)), omega arith)
  | inr other ↦ let never : none ≡ some es = rw other at e in cc
]

site-Fits : Fits site (mark_of_time 0 (codes "x"))
unfolding decimal
site-Fits = record {
  size = omega arith;
  hello = omega arith;
  secrets = λ name i m e. omega (arith, found_is_ann name i m e);
  paths = directory-Small;
}

session_ends_example :
    (s' : Pop) × (thread_handler_pop 64 site 0 (codes "x") true visit fresh ≡ finished s')
    × (s'.locks ≡ none ∷ [])
    × (s'.overrun ≡ false)
session_ends_example =
    session_ends 64 site 0 (codes "x") true visit fresh (omega arith) (omega arith) (omega arith)
      fresh-HoldsNone refl refl site-Fits

abbrev entry : List ℕ → MsgEnt
entry name = record { del = 0; size = 10; name = name }

abbrev entered : Pop
entered = record fresh {
  pstate = mbx_tran;
  mbox = some 0;
  msgs = entry (codes "ann/one") ∷ entry (codes "ann/two") ∷ [];
}

-- A line with the NUL behind it
abbrev stored : List ℕ → List ℕ
stored text = text ++ (0 ∷ [])

quit_is_quit : command_of (stored (codes "quit")) ≡ quit_c
unfolding command
quit_is_quit = refl

-- The reset takes back the first mark.
abbrev second_thoughts : List (List ℕ)
second_thoughts = stored (codes "DELE 1") ∷ stored (codes "RSET") ∷ stored (codes "DELE 2") ∷ []

second_thoughts_no_quit : All (λ l. is_quit (command_of l) ≡ false) second_thoughts
unfolding command
second_thoughts_no_quit = (refl, (refl, (refl, tt)))

quit_removes_marked_example :
    (t : Pop) × (run_lines site second_thoughts entered ≡ again t)
    × (t.removed ≡ [])
    × (t.overrun ≡ false)
    × (u : Pop) × (run_lines site (stored (codes "quit") ∷ []) t ≡ over u)
    × (u.removed ≡ [] ++ to_remove 0 entered.msgs (map request second_thoughts))
    × (u.overrun ≡ false)
quit_removes_marked_example =
    quit_removes_marked site second_thoughts (stored (codes "quit")) entered refl
      (omega arith, omega arith) second_thoughts_no_quit quit_is_quit

second_removed : to_remove 0 entered.msgs (map request second_thoughts) ≡ codes "ann/two" ∷ []
unfolding to_remove marked_after request command message_number atoi digits_value
second_removed = refl
