-- ===== src/Net/Dns/Laws.antt =====
-- The resolver of net/dns.c: the walk over an answer ends.
use chris_os.Base.{inl, inr, Option-cases, ℕ, zero, suc, ◌+◌, ◌<◌, refl, ◌≢◌, not, Option}
use chris_os.Base.{none, some, arith, leb, if◌then◌else◌}
use chris_os.Base.Word.{Memory, be16}
use chris_os.Net.Dns.{Dns, Record, address, answers, dns_rx, find_address, next_at}
use chris_os.Net.Dns.{read_record, set_found, record_start, skip_name}
use chris_os.Net.Types.{Ip}

-- A unit of fuel for each byte that is left, and one more, is enough for a name.
skip_name-ne-none :
    (p : Memory) (len fuel pos : ℕ) → 0 < fuel → len < fuel + pos → skip_name p len fuel pos ≢ none
unfolding skip_name
skip_name-ne-none p len zero pos f h = absurd (omega arith)
skip_name-ne-none p len (suc fuel) pos f h =
    ground (arith, skip_name-ne-none p len fuel (pos + (p pos + 1)))

name-ne-none : (p : Memory) (len pos : ℕ) → skip_name p len (len + 1) pos ≢ none
name-ne-none p len pos = skip_name-ne-none p len (len + 1) pos (omega arith) (omega arith)

record_start-ne-none : (p : Memory) (len pos : ℕ) → record_start p len pos ≢ none
unfolding record_start
record_start-ne-none p len pos = ground (arith, name-ne-none p len pos)

after-record :
    (p : Memory) (len left pos : ℕ) (r : Record)
    → ((n : ℕ) → answers p len left n ≢ none)
    → (if not (leb (pos + 12) len)
        then some none
        else elim r [ address i ↦ some (some i) | next_at n ↦ answers p len left n ])
      ≢ none
after-record p len left pos (address i) h = ground arith
after-record p len left pos (next_at n) h = let k = h n in ground arith

answers-ne-none : (p : Memory) (len left pos : ℕ) → answers p len left pos ≢ none
unfolding answers
answers-ne-none p len zero pos = ground arith
answers-ne-none p len (suc left) pos = elim (Option-cases (record_start p len pos)) [
  | inl e ↦ absurd (record_start-ne-none p len pos e)
  | inr y ↦
      rw (y.1) (after-record p len left pos (read_record p len y.0) (answers-ne-none p len left))
]

find_address-ne-none : (p : Memory) (len : ℕ) → find_address p len ≢ none
unfolding find_address
find_address-ne-none p len = elim (Option-cases (skip_name p len (len + 1) 12)) [
  | inl e ↦ absurd (name-ne-none p len 12 e)
  | inr y ↦ rw (y.1, find_address) (answers-ne-none p len (be16 p 6) (y.0 + 5))
]

set_found-ne-none : (d : Dns) (r : Option (Option Ip)) → r ≢ none → set_found d r ≢ none
unfolding set_found
set_found-ne-none d none h = absurd (h refl)
set_found-ne-none d (some none) h = ground arith
set_found-ne-none d (some (some i)) h = ground arith

-- The walk over an answer ends on every input, whatever it says about its names and lengths.
pub dns_rx-ne-none : (d : Dns) (p : Memory) (len : ℕ) → dns_rx d p len ≢ none
unfolding dns_rx
dns_rx-ne-none d p len =
    ground (arith, set_found-ne-none d (find_address p len) (find_address-ne-none p len))
