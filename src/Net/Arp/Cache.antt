-- ===== src/Net/Arp/Cache.antt =====
-- The cache of net/arp.c as a finite map.
use chris_os.Base.{set, drop, ◌&&◌, ◌<◌, Bool, ◌≡◌, refl, inl, inr, true, false, not, ◌||◌}
use chris_os.Base.{Option, none, some, [], ◌∷◌, arith, if◌then◌else◌, Bool-cases, length}
use chris_os.Net.Arp.{entry, cache_store, ArpEntry, Cache, store_in, cache_find}
use chris_os.Net.Types.{Ip, Mac, ip_eq, ip_eq→eq}

ip_eq_left : (a b c : Ip) → ip_eq a b ≡ true → ip_eq a c ≡ ip_eq b c
ip_eq_left a b c h = rw (ip_eq→eq a b h) refl

ip_eq_right : (a b c : Ip) → ip_eq a b ≡ true → ip_eq c b ≡ ip_eq c a
ip_eq_right a b c h = rw (ip_eq→eq a b h) refl

-- Whether every slot is taken by an address other than `i`.
unfoldable pub crowded : Ip → Cache → Bool
crowded i [] = true
crowded i (x ∷ xs) = (x.valid && not (ip_eq x.ip i)) && crowded i xs

-- What a store that finds a place does to every lookup, and what it means that none is found.
abbrev Stored : Ip → Ip → Mac → Cache → Option Cache → Type 0
Stored i j m c none = crowded i c ≡ true
Stored i j m c (some c') =
    (cache_find j c' ≡ (if ip_eq i j then some m else cache_find j c))
    × (length c' ≡ length c)
    × (crowded i c ≡ false)

keep-Stored :
    (i j : Ip) (m : Mac) (x : ArpEntry) (xs : Cache) (r : Option Cache)
    → x.valid ≡ true
    → ip_eq x.ip i ≡ false
    → Stored i j m xs r
    → Stored i j m (x ∷ xs) (elim r [ some c ↦ some (x ∷ c) | none ↦ none ])
unfolding cache_find crowded
keep-Stored i j m x xs none v n s = rw (v, n) s
keep-Stored i j m x xs (some c) v n s =
    (ground (arith, ip_eq_right i j x.ip), omega (arith, s.1), rw (v, n) s.2)

store_in-Stored : (i j : Ip) (m : Mac) (c : Cache) → Stored i j m c (store_in i m c)
unfolding store_in cache_find crowded
store_in-Stored i j m [] = refl
store_in-Stored i j m (x ∷ xs) = elim (Bool-cases (not x.valid || ip_eq x.ip i)) [
  | inl y ↦ rw y (ground (arith, ip_eq_left x.ip i j), refl, ground arith)
  | inr n ↦ rw n (
      keep-Stored i j m x xs (store_in i m xs) (ground arith) (ground arith)
        (store_in-Stored i j m xs))
]

-- In a cache with slots, a store of `i` is found by every later lookup of `i`. The lookup of
-- another address is as before, except that a cache whose slots all hold other addresses loses what
-- it held in slot 0. The size stays the same.
pub cache_find-cache_store :
    (i j : Ip) (m : Mac) (c : Cache)
    → 0 < length c
    → (cache_find j (cache_store i m c)
        ≡ (if ip_eq i j then some m else cache_find j (if crowded i c then drop 1 c else c)))
      × (length (cache_store i m c) ≡ length c)
unfolding cache_store
cache_find-cache_store i j m c ne = settle c (store_in i m c) ne (store_in-Stored i j m c)
  where
    settle :
        (c : Cache) (r : Option Cache)
        → 0 < length c
        → Stored i j m c r
        → (cache_find j (elim r [ some c' ↦ c' | none ↦ set c 0 (entry i m) ])
            ≡ (if ip_eq i j then some m else cache_find j (if crowded i c then drop 1 c else c)))
          × (length (elim r [ some c' ↦ c' | none ↦ set c 0 (entry i m) ]) ≡ length c)
    settle [] r ne s = absurd (omega arith)
    settle (x ∷ xs) none ne s = unfold cache_find in rw s (refl, refl)
    settle (x ∷ xs) (some c') ne s = rw s.2 (s.0, s.1)
