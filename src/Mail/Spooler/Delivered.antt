-- ===== src/Mail/Spooler/Delivered.antt =====
-- QX-mail/spooler.c: who is sent a message, by which deliveries.
use qnxstuff.Prelude.{
  ℕ, zero, suc, ◌+◌, ◌<◌, Bool, ◌||◌, true, false, none, some, List, [], ◌∷◌, ◌++◌, length, any,
  ◌≡◌, refl, sym, All, append_assoc, length-append, append-nil, Option-cases, inl, inr, arith,
}
use qnxstuff.Prelude.Strings.{stricmp_eq_refl}
use qnxstuff.Mail.Mailboxes.{Mailbox, find_mailbox}
use qnxstuff.Mail.Spooler.{
  domain_of, destfn, local_delivery, Group, to_relay, to_domain, next_group, Spooled, done, fault,
  external, spool_message,
}
use qnxstuff.Mail.Spooler.Groups.{
  HasDomain, Compares, count, collect_domain-Collected, lacks_domain, Compares-HasDomain,
  any_lacks-HasDomain, collect_lacking,
}

-- The mailboxes of the recipients that have one, and the files in these; the other recipients.
abbrev pub homes : List Mailbox → List (List ℕ) → List Mailbox
homes mbx [] = []
homes mbx (r ∷ rs) = elim (find_mailbox r mbx) [
  | none ↦ homes mbx rs
  | some (i, m) ↦ m ∷ homes mbx rs
]

abbrev pub files : (ℕ → List ℕ) → ℕ → List Mailbox → List (List ℕ)
files number k [] = []
files number k (m ∷ ms) = destfn number k m ∷ files number (suc k) ms

abbrev pub away : List Mailbox → List (List ℕ) → List (List ℕ)
away mbx [] = []
away mbx (r ∷ rs) = elim (find_mailbox r mbx) [ none ↦ r ∷ away mbx rs | some m ↦ away mbx rs ]

abbrev pub rev_onto : List (List ℕ) → List (List ℕ) → List (List ℕ)
rev_onto [] ys = ys
rev_onto (x ∷ xs) ys = rev_onto xs (x ∷ ys)

files_more :
    (number : ℕ → List ℕ) (links : List (List ℕ)) (file : List ℕ) (ms : List Mailbox)
    → (links ++ (file ∷ [])) ++ files number (length (links ++ (file ∷ []))) ms
      ≡ links ++ (file ∷ files number (suc (length links)) ms)
files_more number links file ms =
    let l : length (links ++ (file ∷ [])) ≡ suc (length links) =
      omega (arith, length-append links (file ∷ [])) in
    rw (l, append_assoc links (file ∷ []) (files number (suc (length links)) ms)) refl

pub local_delivery_lem :
    (mbx : List Mailbox) (number : ℕ → List ℕ) (rs links crcpt : List (List ℕ))
    → local_delivery mbx number rs links crcpt
      ≡ (links ++ files number (length links) (homes mbx rs), rev_onto (away mbx rs) crcpt)
unfolding local_delivery
local_delivery_lem mbx number [] links crcpt = rw (append-nil links) refl
local_delivery_lem mbx number (r ∷ rs) links crcpt = elim (Option-cases (find_mailbox r mbx)) [
  | inl e ↦ rw (e, local_delivery, homes, away) (local_delivery_lem mbx number rs links (r ∷ crcpt))
  | inr ((i, m), e) ↦
      rw
        (
          e,
          local_delivery,
          homes,
          away,
          sym (files_more number links (destfn number (length links) m) (homes mbx rs)),
        )
        (local_delivery_lem mbx number rs (links ++ (destfn number (length links) m ∷ [])) crcpt)
]

any-rev_onto :
    (p : List ℕ → Bool) (xs ys : List (List ℕ)) → any p (rev_onto xs ys) ≡ (any p xs || any p ys)
any-rev_onto p [] ys = refl
any-rev_onto p (x ∷ xs) ys = rw (any-rev_onto p xs (x ∷ ys)) (ground arith)

count-rev_onto :
    (p : List ℕ → Bool) (xs ys : List (List ℕ)) → count p (rev_onto xs ys) ≡ count p xs + count p ys
count-rev_onto p [] ys = omega arith
count-rev_onto p (x ∷ xs) ys = omega (arith, count-rev_onto p xs (x ∷ ys))

rev_onto_cons :
    (xs : List (List ℕ)) (y : List ℕ) (ys : List (List ℕ))
    → (z : List ℕ) × (zs : List (List ℕ)) × (rev_onto xs (y ∷ ys) ≡ z ∷ zs)
rev_onto_cons [] y ys = (y, ys, refl)
rev_onto_cons (x ∷ xs) y ys = rev_onto_cons xs x (y ∷ ys)

-- Groups of which each has recipients of its domain alone, and no later one a recipient of it.
abbrev pub Groups : Type 0
Groups = List (List ℕ × List (List ℕ))

abbrev pub Apart : List ℕ → Groups → Type 0
Apart d [] = Unit
Apart d ((e, to) ∷ gs) = All (Compares false d) to × Apart d gs

abbrev pub Sorted : Groups → Type 0
Sorted [] = Unit
Sorted ((d, to) ∷ gs) = All (Compares true d) to × Apart d gs × Sorted gs

abbrev pub counts : (List ℕ → Bool) → Groups → ℕ
counts p [] = 0
counts p ((d, to) ∷ gs) = count p to + counts p gs

module _ {ℓ} {S : Type ℓ} (deliver : Group → S → S) where
  abbrev pub sends : Groups → S → S
  sends [] s = s
  sends ((d, to) ∷ gs) s = sends gs (deliver (to_domain d to) s)

  abbrev Grouped : ℕ → List (List ℕ) → Type ℓ
  Grouped fuel crcpt =
      (gs : Groups) × ((s : S) → external deliver false fuel crcpt s ≡ done (sends gs s))
      × Sorted gs
      × ((p : List ℕ → Bool) → counts p gs ≡ count p crcpt)
      × ((d : List ℕ) → All (Compares false d) crcpt → Apart d gs)

  external-Grouped :
      (fuel : ℕ) (crcpt : List (List ℕ))
      → length crcpt < fuel
      → All HasDomain crcpt
      → Grouped fuel crcpt
  unfolding external next_group
  external-Grouped zero crcpt lt h = absurd (omega arith)
  external-Grouped (suc fuel) [] lt h = ([], λ s. refl, tt, λ p. refl, λ d x. tt)
  external-Grouped (suc fuel) (r ∷ rs) lt ((d, at), h) =
      let (to, rest, eq, same, others, c, l, k) =
        collect_domain-Collected d rs (r ∷ []) [] h ((d, at, stricmp_eq_refl d), tt) tt in
      let (gs, runs, sorted, cs, apart) =
        external-Grouped fuel rest (omega arith) (Compares-HasDomain false d rest others) in
      (
        (d, to) ∷ gs,
        λ s. rw (at, external, next_group, eq) (runs (deliver (to_domain d to) s)),
        (same, apart d others, sorted),
        λ p. omega (arith, c p, cs p),
        λ d' (x, xs). let (a, b) = k d' xs (x, tt) tt in (a, apart d' b),
      )

  external_lacking :
      (fuel : ℕ) (crcpt : List (List ℕ)) (s : S)
      → any lacks_domain crcpt ≡ true
      → external deliver false (suc fuel) crcpt s ≡ fault
  unfolding external next_group
  external_lacking fuel [] s h = ground arith
  external_lacking fuel (r ∷ rs) s h = elim (Option-cases (domain_of r)) [
    | inl e ↦ rw (e, external, next_group) refl
    | inr (d, e) ↦
        let lacking : any lacks_domain rs ≡ true = ground (arith, h, e) in
        rw (e, external, next_group, collect_lacking d rs (r ∷ []) [] lacking) refl
  ]

  -- The deliveries to other servers, of recipients that are no mailboxes, of whom one may lack a
  -- domain.
  abbrev pub Outgoing : Bool → Bool → List (List ℕ) → S → Spooled S → Type ℓ
  Outgoing true lacking [] s o = o ≡ done s
  Outgoing true lacking (r ∷ rs) s o = o ≡ done (deliver (to_relay (rev_onto (r ∷ rs) [])) s)
  Outgoing false true rs s o = o ≡ fault
  Outgoing false false rs s o =
      (gs : Groups) × (o ≡ done (sends gs s))
      × Sorted gs
      × ((p : List ℕ → Bool) → counts p gs ≡ count p rs)

  relay-Outgoing :
      (lacking : Bool) (rs : List (List ℕ)) (s : S)
      → Outgoing true lacking rs s
          (external deliver true (suc (length (rev_onto rs []))) (rev_onto rs []) s)
  unfolding external next_group
  relay-Outgoing lacking [] s = refl
  relay-Outgoing lacking (r ∷ rs) s = let (z, zs, e) = rev_onto_cons rs r [] in rw e refl

  external-Outgoing :
      (use_relay lacking : Bool) (rs : List (List ℕ)) (s : S)
      → any lacks_domain rs ≡ lacking
      → Outgoing use_relay lacking rs s
          (external deliver use_relay (suc (length (rev_onto rs []))) (rev_onto rs []) s)
  external-Outgoing true lacking rs s h = relay-Outgoing lacking rs s
  external-Outgoing false true rs s h =
      external_lacking (length (rev_onto rs [])) (rev_onto rs []) s
        (ground (arith, any-rev_onto lacks_domain rs [], h))
  external-Outgoing false false rs s h =
      let domains =
        any_lacks-HasDomain (rev_onto rs []) (ground (arith, any-rev_onto lacks_domain rs [], h)) in
      let (gs, runs, sorted, cs, apart) =
        external-Grouped (suc (length (rev_onto rs []))) (rev_onto rs []) (omega arith) domains in
      (gs, runs s, sorted, λ p. omega (arith, cs p, count-rev_onto p rs []))

  -- Every recipient that is the name of a mailbox, letters' case aside, gets the file in that mailbox;
  -- the others are sent the message as follows. With a relay they are sent it together, if there is one.
  -- Without, the spooler uses a null pointer if one of them has no '@'; otherwise the deliveries end, and
  -- they are to groups that together have each of them as often as it was given, each group of one domain
  -- and no two of the same, letters' case aside.
  pub spool_message_lem :
      (use_relay : Bool) (mbx : List Mailbox) (number : ℕ → List ℕ) (to : List (List ℕ)) (s : S)
      → ((spool_message deliver use_relay mbx number to s).0 ≡ files number 0 (homes mbx to))
        × Outgoing use_relay
            (any lacks_domain (away mbx to))
            (away mbx to)
            s
            (spool_message deliver use_relay mbx number to s).1
  unfolding spool_message
  spool_message_lem use_relay mbx number to s =
      rw (local_delivery_lem mbx number to [] [])
        (refl, external-Outgoing use_relay (any lacks_domain (away mbx to)) (away mbx to) s refl)
