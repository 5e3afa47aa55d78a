-- ===== src/Filter/Gate/Handled.antt =====
-- QX-billing/qxc_main.c: what qxc_rx_up and qxc_rx_down do with any packet.
use qnxstuff.Prelude.{
  ℕ, ◌≡◌, refl, true, false, Option, none, some, List, arith, Bool-cases, inl, inr,
}
use qnxstuff.Prelude.Strings.{stricmp_eq}
use qnxstuff.Filter.Packet.{Direction, to_cli, from_cli}
use qnxstuff.Filter.State.{State, View, Shows}
use qnxstuff.Filter.Gate.{
  Npkt, Ids, Verdict, pass, inspect, elsewhere, see_message, calls_up, calls_down, ids_of,
  qxc_rx_up, qxc_rx_down,
}
use qnxstuff.Filter.Gate.Verdicts.{Inspected, inspect-Inspected}

-- The interface of interest is the one with these numbers.
abbrev pub Watches : State → Ids → Type 0
Watches f ids =
    (f.interface.cell ≡ ids.cell)
    × (f.interface.endpoint ≡ ids.endpoint)
    × (f.interface.iface ≡ ids.iface)

-- A message moves the interface of interest if it advertises one of the configured name.
pub data SeesMessage (f : State) (n : Npkt) (ids : Ids) (f' : State) : Type 0 where
  not_advert : n.advertises ≡ none → f' ≡ f → SeesMessage f n ids f'
  other_name :
      (name : List ℕ)
      → n.advertises ≡ some name
      → stricmp_eq f.ifname name ≡ false
      → f' ≡ f
      → SeesMessage f n ids f'
  this_name :
      (name : List ℕ)
      → n.advertises ≡ some name
      → stricmp_eq f.ifname name ≡ true
      → Watches f' ids
      → f'.rules ≡ f.rules
      → f'.log ≡ f.log
      → SeesMessage f n ids f'

see_message-SeesMessage :
    (f : State) (n : Npkt) (ids : Ids) (o : Option (List ℕ))
    → n.advertises ≡ o
    → SeesMessage f n ids (see_message f n ids)
unfolding see_message
see_message-SeesMessage f n ids none e = not_advert e (rw e refl)
see_message-SeesMessage f n ids (some name) e = elim (Bool-cases (stricmp_eq f.ifname name)) [
  | inl same ↦
      this_name name e same (rw (e, same) (refl, refl, refl)) (rw (e, same) refl)
        (rw (e, same) refl)
  | inr different ↦ other_name name e different (rw (e, different) refl)
]

-- A message passes; so does a packet of another interface, and changes nothing; of the interface
-- of interest the rules and the log decide.
pub data Handled (f : State) (a : View) (dir : Direction) (n : Npkt) (ids : Ids) (stack : List ℕ)
    (v : Verdict) (f' : State) : Type 0 where
  message :
      n.is_msg ≡ true
      → v ≡ pass
      → (dir ≡ from_cli → SeesMessage f n ids f')
      → (dir ≡ to_cli → f' ≡ f)
      → Handled f a dir n ids stack v f'
  foreign :
      n.is_msg ≡ false → ¬ Watches f ids → v ≡ pass → f' ≡ f → Handled f a dir n ids stack v f'
  decided :
      n.is_msg ≡ false
      → Watches f ids
      → (b : View) → Shows f' b
      → Inspected a dir n stack v b
      → Handled f a dir n ids stack v f'

elsewhere-Watches : (f : State) (ids : Ids) → elsewhere f ids ≡ false → Watches f ids
elsewhere-Watches f ids e = ground arith

elsewhere-not-Watches : (f : State) (ids : Ids) → elsewhere f ids ≡ true → ¬ Watches f ids
elsewhere-not-Watches f ids e w = ground arith

rx_up_decided :
    (f : State) (n : Npkt) (ids : Ids) (stack : List ℕ) (taken : ℕ) {v : Verdict} {f' : State}
    → n.is_msg ≡ false
    → elsewhere f ids ≡ false
    → inspect f from_cli n stack ≡ some (v, f')
    → qxc_rx_up f n ids stack taken ≡ some (calls_up v taken, f')
unfolding qxc_rx_up
rx_up_decided f n ids stack taken packet ours done = simp (packet, ours) (rw (done, qxc_rx_up) refl)

rx_down_decided :
    (f : State) (n : Npkt) (stack : List ℕ) {v : Verdict} {f' : State}
    → n.is_msg ≡ false
    → elsewhere f (ids_of n) ≡ false
    → inspect f to_cli n stack ≡ some (v, f')
    → qxc_rx_down f n stack ≡ some (calls_down v, f')
unfolding qxc_rx_down
rx_down_decided f n stack packet ours done = simp (packet, ours) (rw (done, qxc_rx_down) refl)

module _ {f : State} {a : View} (s : Shows f a) (n : Npkt) (stack : List ℕ) where
  -- Every packet from the clients is decided: it is offered upwards if it passes, and given back
  -- to its driver if it is blocked or nobody above takes it.
  rx_up-Handled :
      (ids : Ids) (taken : ℕ)
      → (v : Verdict) × (f' : State) × (qxc_rx_up f n ids stack taken ≡ some (calls_up v taken, f'))
        × Handled f a from_cli n ids stack v f'
  unfolding qxc_rx_up
  rx_up-Handled ids taken = elim (Bool-cases n.is_msg) [
    | inl msg ↦ (
      pass,
      see_message f n ids,
      rw msg refl,
      message msg refl (λ e. see_message-SeesMessage f n ids n.advertises refl) (λ e. cc),
    )
    | inr packet ↦ elim (Bool-cases (elsewhere f ids)) [
      | inl other ↦ (
        pass,
        f,
        rw (packet, other) refl,
        foreign packet (elsewhere-not-Watches f ids other) refl refl,
      )
      | inr ours ↦
          let (v, f', b, done, shows, how) = inspect-Inspected from_cli n stack s in
          (
            v,
            f',
            rx_up_decided f n ids stack taken packet ours done,
            decided packet (elsewhere-Watches f ids ours) b shows how,
          )
    ]
  ]

  -- So is every packet to them: it is sent down if it passes, and given back if it is blocked.
  rx_down-Handled :
      (v : Verdict) × (f' : State) × (qxc_rx_down f n stack ≡ some (calls_down v, f'))
      × Handled f a to_cli n (ids_of n) stack v f'
  unfolding qxc_rx_down
  rx_down-Handled = elim (Bool-cases n.is_msg) [
    | inl msg ↦ (pass, f, rw msg refl, message msg refl (λ e. cc) (λ e. refl))
    | inr packet ↦ elim (Bool-cases (elsewhere f (ids_of n))) [
      | inl other ↦ (
        pass,
        f,
        rw (packet, other) refl,
        foreign packet (elsewhere-not-Watches f (ids_of n) other) refl refl,
      )
      | inr ours ↦
          let (v, f', b, done, shows, how) = inspect-Inspected to_cli n stack s in
          (
            v,
            f',
            rx_down_decided f n stack packet ours done,
            decided packet (elsewhere-Watches f (ids_of n) ours) b shows how,
          )
    ]
  ]

  -- In a state that shows a view, qxc_rx_up and qxc_rx_down end on every packet with the io-net
  -- calls of a verdict. A message passes; it moves the watched interface exactly if it comes up and
  -- advertises one of the configured name. A packet of another interface passes and changes nothing;
  -- one of the watched interface is inspected, as from a client on its way up and as to a client on
  -- its way down.
  pub rx_each-Handled :
      (ids : Ids) (taken : ℕ)
      → ((v : Verdict) × (f' : State) × (qxc_rx_up f n ids stack taken
            ≡ some (calls_up v taken, f'))
          × Handled f a from_cli n ids stack v f')
        × ((v : Verdict) × (f' : State) × (qxc_rx_down f n stack ≡ some (calls_down v, f'))
            × Handled f a to_cli n (ids_of n) stack v f')
  rx_each-Handled ids taken = (rx_up-Handled ids taken, rx_down-Handled)
