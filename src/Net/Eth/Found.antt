-- ===== src/Net/Eth/Found.antt =====
-- When `eth_init` of net/eth.c starts the card, and when it does not return.
use chris_os.Base.{ℕ, zero, suc, ◌+◌, ◌≤◌, ◌<◌, ◌≡◌, ◌≢◌, refl, sym, inl, inr, true, false}
use chris_os.Base.{none, some, arith, ltb, ◌==◌, Bool-cases, Option-cases, ==→eq, lt→ltb}
use chris_os.Base.Word.{u8}
use mathlib.Core.Path.{subst}
use chris_os.Net.Eth.{found, find_dev, is_rtl8139, pci_find_rtl8139}
use chris_os.Net.Eth.Laws.{pci_find-never}
use chris_os.Net.Eth.Start.{Card, Started, eth_init, pci_read, start_card}

find_dev-some :
    (pci : ℕ → ℕ → ℕ) (bus left dev d : ℕ)
    → find_dev pci bus left dev ≡ some d
    → is_rtl8139 (pci bus d) ≡ true
unfolding find_dev
find_dev-some pci bus zero dev d e = absurd (ground arith)
find_dev-some pci bus (suc left) dev d e = elim (Bool-cases (is_rtl8139 (pci bus dev))) [
  | inl here ↦ ground (arith, e, here)
  | inr other ↦ find_dev-some pci bus left (dev + 1) d (ground (arith, e, other))
]

find_dev-hit :
    (pci : ℕ → ℕ → ℕ) (bus left dev d : ℕ)
    → is_rtl8139 (pci bus d) ≡ true
    → dev ≤ d
    → d < dev + left
    → find_dev pci bus left dev ≢ none
unfolding find_dev
find_dev-hit pci bus zero dev d hit h h' e = absurd (omega arith)
find_dev-hit pci bus (suc left) dev d hit h h' e = elim (Bool-cases (dev == d)) [
  | inl same ↦
      (let here = subst (λ n. is_rtl8139 (pci bus n) ≡ true) (sym (==→eq dev d same)) hit in
        absurd (ground (arith, e, here)))
  | inr other ↦
      (let less : dev + 1 ≤ d = ground (arith, other) in
        elim (Bool-cases (is_rtl8139 (pci bus dev))) [
          | inl here ↦ absurd (ground (arith, e, here))
          | inr skip ↦
              find_dev-hit pci bus left (dev + 1) d hit less (omega arith) (ground (arith, e, skip))
        ])
]

-- The search finds a card, if there is one on a bus that it comes to.
find-found :
    (pci : ℕ → ℕ → ℕ) (fuel bus b d : ℕ)
    → is_rtl8139 (pci b d) ≡ true
    → d < 32
    → bus ≤ b
    → b < bus + fuel
    → b < 256
    → (c : ℕ) × (e : ℕ) × (pci_find_rtl8139 pci fuel bus ≡ found c e)
      × (is_rtl8139 (pci c e) ≡ true)
unfolding pci_find_rtl8139
find-found pci zero bus b d hit hd h h' hb = absurd (omega arith)
find-found pci (suc fuel) bus b d hit hd h h' hb =
    let small : ltb bus 256 ≡ true = lt→ltb bus 256 (omega arith) in
    elim (Option-cases (find_dev pci bus 32 0)) [
      | inl e ↦
          let other : bus ≢ b = λ same.
            find_dev-hit pci bus 32 0 d (subst (λ n. is_rtl8139 (pci n d) ≡ true) (sym same) hit)
              (omega arith) (omega arith) e in
          let next : u8 (bus + 1) ≡ bus + 1 = omega arith in
          rw (pci_find_rtl8139, small, e, next)
            (find-found pci fuel (bus + 1) b d hit hd (omega arith) (omega arith) hb)
      | inr some_dev ↦ (
        bus,
        some_dev.0,
        rw (pci_find_rtl8139, small, some_dev.1) refl,
        find_dev-some pci bus 32 0 some_dev.0 some_dev.1,
      )
    ]

-- The identifier that a device shows.
abbrev pub id_of : Card → ℕ → ℕ → ℕ
id_of card bus dev = pci_read card.space bus dev 0 0

-- With the card on the bus, `eth_init` needs a round for each of the 256 busses at most, and starts
-- a device that shows the identifier of the card; without it, no amount of fuel is enough, so it
-- never returns.
pub eth_init_lem :
    (card : Card) (s : Started)
    → ((b d : ℕ)
        → b < 256
        → d < 32
        → is_rtl8139 (id_of card b d) ≡ true
        → (bus : ℕ) × (dev : ℕ) × (is_rtl8139 (id_of card bus dev) ≡ true)
          × (eth_init 256 card s ≡ some (start_card card bus dev s)))
      × (((b d : ℕ) → is_rtl8139 (id_of card b d) ≡ false)
          → (fuel : ℕ) → eth_init fuel card s ≡ none)
unfolding eth_init
eth_init_lem card s = (
  λ b d hb hd hit.
      (let search = find-found (id_of card) 256 0 b d hit hd (omega arith) (omega arith) hb in
        (search.0, search.1, search.3, rw (eth_init, search.2) refl)),
  λ absent fuel. rw (eth_init, pci_find-never (id_of card) fuel 0 absent (omega arith)) refl,
)
