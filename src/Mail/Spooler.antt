-- ===== src/Mail/Spooler.antt =====
-- QX-mail/spooler.c: the delivery of a message to mailboxes of this server, and to other servers in
-- groups of recipients.
pub mod Groups
pub mod Delivered
pub mod Question
pub mod Answer
pub mod Remote
pub mod Connect
pub mod Targets
pub mod Script
pub mod Told
pub mod Names
pub mod Decoding
mod Tests
use qnxstuff.Prelude.{
  ℕ, zero, suc, Bool, true, false, Option, none, some, List, [], ◌∷◌, ◌++◌, ◌==◌, if◌then◌else◌,
  length,
}
use qnxstuff.Prelude.Strings.{stricmp_eq}
use qnxstuff.Mail.Mailboxes.{Mailbox, find_mailbox}

-- `strrchr(s, '@')`: what stands behind the last '@'.
unfoldable pub domain_of : List ℕ → Option (List ℕ)
domain_of [] = none
domain_of (c ∷ s) = elim (domain_of s) [
  | none ↦ if c == b'@' then some s else none
  | some d ↦ some d
]

-- The name of the file in a mailbox, which ends in the numbers of the thread, of the time, and a
-- random one.
abbrev pub destfn : (ℕ → List ℕ) → ℕ → Mailbox → List ℕ
destfn number k m = m.user ++ (b'/' ∷ number k)

-- The local delivery: the names that the message's file gets, and the recipients that are left.
unfoldable pub local_delivery :
    List Mailbox
    → (ℕ → List ℕ)
    → List (List ℕ)
    → List (List ℕ)
    → List (List ℕ)
    → List (List ℕ) × List (List ℕ)
local_delivery mbx number [] links crcpt = (links, crcpt)
local_delivery mbx number (r ∷ rs) links crcpt = elim (find_mailbox r mbx) [
  | none ↦ local_delivery mbx number rs links (r ∷ crcpt)
  | some (i, m) ↦
      local_delivery mbx number rs (links ++ (destfn number (length links) m ∷ [])) crcpt
]

-- The recipients that are sent the message together.
pub data Group : Type 0 where
  to_relay : List (List ℕ) → Group
  to_domain : List ℕ → List (List ℕ) → Group

-- The scan for recipients of the same domain. There is none if a recipient has no '@', and the code
-- compares a null pointer.
unfoldable pub collect_domain :
    List ℕ → List (List ℕ) → List (List ℕ) → List (List ℕ) → Option (List (List ℕ) × List (List ℕ))
collect_domain d [] to others = some (to, others)
collect_domain d (r ∷ rs) to others = elim (domain_of r) [
  | none ↦ none
  | some e ↦ elim (stricmp_eq d e) [
    | true ↦ collect_domain d rs (r ∷ to) others
    | false ↦ collect_domain d rs to (r ∷ others)
  ]
]

-- The next group, and the recipients that are left.
unfoldable pub next_group : Bool → List ℕ → List (List ℕ) → Option (Group × List (List ℕ))
next_group true r rs = some (to_relay (r ∷ rs), [])
next_group false r rs = elim (domain_of r) [
  | none ↦ none
  | some d ↦ elim (collect_domain d rs (r ∷ []) []) [
    | none ↦ none
    | some (to, rest) ↦ some (to_domain d to, rest)
  ]
]

-- The loop over the groups ends in what the deliveries made of a state, or in the use of a null
-- pointer; or the model's fuel has run out.
pub data Spooled {ℓ} (S : Type ℓ) : Type ℓ where
  done : S → Spooled S
  fault starved : Spooled S

module _ {ℓ} {S : Type ℓ} (deliver : Group → S → S) (use_relay : Bool) where
  unfoldable pub external : ℕ → List (List ℕ) → S → Spooled S
  external zero crcpt s = starved
  external (suc fuel) [] s = done s
  external (suc fuel) (r ∷ rs) s = elim (next_group use_relay r rs) [
    | none ↦ fault
    | some (g, rest) ↦ external fuel rest (deliver g s)
  ]

  -- The whole delivery. Every group takes a recipient, so the recipients bound the groups.
  unfoldable pub spool_message :
      List Mailbox → (ℕ → List ℕ) → List (List ℕ) → S → List (List ℕ) × Spooled S
  unfolding external
  spool_message mbx number to s =
      let (links, crcpt) = local_delivery mbx number to [] [] in
      (links, external (suc (length crcpt)) crcpt s)
