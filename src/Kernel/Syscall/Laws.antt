-- ===== src/Kernel/Syscall/Laws.antt =====
-- The sockets that programs have: kernel/syscall.c gives each a place of its own and takes it back.
use chris_os.Base.{ℕ, zero, suc, ◌+◌, ◌<◌, ◌≡◌, refl, sym, ap, ◌∙◌, ◌≢◌, ◌⊎◌, inl, inr, false}
use chris_os.Base.{Option, none, some, [], ◌∷◌, arith, leb, if◌then◌else◌, Option-cases}
use chris_os.Base.{length, get_or, set, get_or-set_self, get_or-set_ne, All}
use mathlib.Core.Path.{subst}
use chris_os.Kernel.Syscall.{SockTable, get_sock, alloc_sock, Calls, Returned, minus_one}
use chris_os.Kernel.Syscall.{open_call, close_call}

-- The first empty place gets the socket, or no place is empty.
pub Allocated : ℕ → SockTable → Option (ℕ × SockTable) → Type 0
Allocated s table none = All (λ p. p ≢ none) table
Allocated s table (some (id, after)) =
    (id < length table) × (get_or table id none ≡ none) × (after ≡ set table id (some s))

-- A place that is taken is passed over.
pass-Allocated :
    (s t : ℕ) (table : SockTable) (r : Option (ℕ × SockTable))
    → Allocated s table r
    → Allocated s
        (some t ∷ table)
        (elim r [ none ↦ none | some (i, rest) ↦ some (i + 1, some t ∷ rest) ])
unfolding Allocated
pass-Allocated s t table none h = ((λ e. cc), h)
pass-Allocated s t table (some (id, after)) (inside, empty, put) =
    let next : id + 1 ≡ suc id = omega arith in
    (
      omega arith,
      ap (λ i. get_or (some t ∷ table) i none) next ∙ empty,
      ap (λ rest. some t ∷ rest) put ∙ ap (λ i. set (some t ∷ table) i (some s)) (sym next),
    )

pub alloc_sock-Allocated : (s : ℕ) (table : SockTable) → Allocated s table (alloc_sock s table)
unfolding alloc_sock Allocated
alloc_sock-Allocated s [] = tt
alloc_sock-Allocated s (none ∷ table) = (omega arith, refl, refl)
alloc_sock-Allocated s (some t ∷ table) =
    pass-Allocated s t table (alloc_sock s table) (alloc_sock-Allocated s table)

set-set_back :
    (table : SockTable) (id : ℕ) (p : Option ℕ)
    → get_or table id none ≡ none
    → set (set table id p) id none ≡ table
set-set_back [] id p h = refl
set-set_back (x ∷ table) zero p h = ap (λ y. y ∷ table) (sym h)
set-set_back (x ∷ table) (suc id) p h = ap (λ t. x ∷ t) (set-set_back table id p h)

lt_leb : (id : ℕ) → id < 8 → leb 8 id ≡ false
lt_leb id h = ground arith

module _ {K : Type 0} (calls : Calls K) where
  -- The life of a socket of a program.
  pub record IsOpened (table : SockTable) (s : ℕ) (r : Returned K) : Type 0 where
    pub found : get_sock r.sock_table r.eax ≡ some s
    pub others : (id : ℕ) → id ≢ r.eax → get_sock r.sock_table id ≡ get_sock table id
    pub closed : (k : K) → (close_call calls r.sock_table r.eax k).sock_table ≡ table
    pub told : (k : K) → (close_call calls r.sock_table r.eax k).kernel ≡ calls.close_sock s k

  placed-IsOpened :
      (table : SockTable) (s id : ℕ) (k : K)
      → length table ≡ 8
      → id < 8
      → get_or table id none ≡ none
      → IsOpened table s (record { eax = id; sock_table = set table id (some s); kernel = k })
  unfolding get_sock close_call
  placed-IsOpened table s id k size inside empty =
      let there = get_or-set_self table id (some s) none (omega arith) in
      let small = lt_leb id inside in
      record {
        found = rw (small, there) refl;
        others = λ i ne.
            ap (λ p. if leb 8 i then none else p)
              (get_or-set_ne table id i (some s) none (λ e. ne (sym e)));
        closed = λ j. rw (close_call, small, there) (set-set_back table id (some s) empty);
        told = λ j. rw (close_call, small, there) refl;
      }

  -- A socket that a program has got is found under its number, the other numbers stand for what
  -- they stood for, and closing it closes exactly this socket and gives the table back as it was;
  -- without a socket or a place the table is as it was, and the result is -1.
  pub open_call-IsOpened :
      (table : SockTable) (s : ℕ) (k : K)
      → length table ≡ 8
      → (calls.open_sock k).0 ≡ some s
      → IsOpened table s (open_call calls table k)
        ⊎ (((open_call calls table k).eax ≡ minus_one)
            × ((open_call calls table k).sock_table ≡ table)
            × All (λ p. p ≢ none) table)
  unfolding open_call Allocated
  open_call-IsOpened table s k size got = elim (Option-cases (alloc_sock s table)) [
    | inl e ↦
        let full = subst (Allocated s table) e (alloc_sock-Allocated s table) in
        rw (open_call, got, e) (inr (refl, refl, full))
    | inr ((id, after), e) ↦
        let (inside, empty, put) = subst (Allocated s table) e (alloc_sock-Allocated s table) in
        let opened = placed-IsOpened table s id (calls.open_sock k).1 size (omega arith) empty in
        rw (open_call, got, e, put) (inl opened)
  ]
