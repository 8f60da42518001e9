-- ===== src/Net/Dns.antt =====
-- net/dns.c: the cache, the answer's walk and the query. A name is its characters without the
-- terminating zero. The wait takes the answers that come before the deadline.
pub mod Laws
use chris_os.Base.{ℕ, zero, suc, ◌+◌, ◌/◌, ◌%◌, ◌^◌, Bool, true, false, not, ◌&&◌, ◌||◌}
use chris_os.Base.{Option, none, some, List, [], ◌∷◌, ◌++◌, ◌==◌, ltb, leb, if◌then◌else◌}
use chris_os.Base.{length, set, take}
use chris_os.Base.Word.{Memory, u8, u16, be16}
use mathlib.Core.List.{reverse}
use chris_os.Net.Types.{ip_eq, Ip, ip, ip_at}
use chris_os.Net.Udp.{Sockets, udp_bind, IpSend, udp_send}

pub record DnsEntry : Type 0 where
  pub ip : Ip
  pub name : List ℕ
  pub valid : Bool

-- The file's statics.
pub record Dns : Type 0 where
  pub server : Ip
  pub result : Ip
  pub done : Bool
  pub tid : ℕ
  pub cache : List DnsEntry

-- `kstrcmp(a, b) == 0`
unfoldable pub same_text : List ℕ → List ℕ → Bool
same_text [] [] = true
same_text [] (b ∷ bs) = false
same_text (a ∷ as') [] = false
same_text (a ∷ as') (b ∷ bs) = a == b && same_text as' bs

-- An entry for a name, of which it keeps the first 63 characters.
abbrev pub dns_entry : List ℕ → Ip → DnsEntry
dns_entry name i = record { ip = i; name = take 63 name; valid = true }

-- The loop of `dns_cache_store`; `none` if it runs through.
unfoldable pub dns_store_in : List ℕ → Ip → List DnsEntry → Option (List DnsEntry)
dns_store_in name i [] = none
dns_store_in name i (e ∷ es) =
    if not e.valid || same_text e.name name
    then some (dns_entry name i ∷ es)
    else elim (dns_store_in name i es) [ some c ↦ some (e ∷ c) | none ↦ none ]

unfoldable pub dns_cache_store : List ℕ → Ip → List DnsEntry → List DnsEntry
dns_cache_store name i c = elim (dns_store_in name i c) [
  | some c' ↦ c'
  | none ↦ set c 0 (dns_entry name i)
]

unfoldable pub dns_cache_lookup : List ℕ → List DnsEntry → Option Ip
dns_cache_lookup name [] = none
dns_cache_lookup name (e ∷ es) =
    if e.valid && same_text e.name name then some e.ip else dns_cache_lookup name es

-- `while (pos < len && data[pos]) pos += data[pos] + 1`, with fuel; `none` means that it ran out.
unfoldable pub skip_name : Memory → ℕ → ℕ → ℕ → Option ℕ
skip_name p len zero pos = none
skip_name p len (suc fuel) pos =
    let rest = skip_name p len fuel (pos + (p pos + 1)) in
    if ltb pos len && not (p pos == 0) then rest else some pos

-- The record behind its name: its address, or where the next record starts.
pub data Record : Type 0 where
  address : Ip → Record
  next_at : ℕ → Record

unfoldable pub read_record : Memory → ℕ → ℕ → Record
read_record p len pos =
    let rdlen = be16 p (pos + 8) in
    if be16 p pos == 1 && (rdlen == 4 && leb (pos + 10 + 4) len)
    then address (ip_at p (pos + 10))
    else next_at (pos + 10 + rdlen)

-- The name of a record: a pointer of two bytes, or labels and a zero.
unfoldable pub record_start : Memory → ℕ → ℕ → Option ℕ
record_start p len pos =
    let labels = skip_name p len (len + 1) pos in
    if p pos / 2 ^ 6 % 4 == 3
    then some (pos + 2)
    else elim labels [ some q ↦ some (q + 1) | none ↦ none ]

-- The loop over the answers, `left` of them from `pos` on: the first address, if there is one. The
-- outer `none` means that the fuel of a name ran out.
unfoldable pub answers : Memory → ℕ → ℕ → ℕ → Option (Option Ip)
answers p len zero pos = some none
answers p len (suc left) pos =
    let start = record_start p len pos in
    if not (leb (pos + 12) len) then some none else elim start [
      | none ↦ none
      | some q ↦ elim (read_record p len q) [
        | address i ↦ some (some i)
        | next_at n ↦ answers p len left n
      ]
    ]

-- The search of a whole packet, whose name of the question starts at 12.
unfoldable pub find_address : Memory → ℕ → Option (Option Ip)
find_address p len = elim (skip_name p len (len + 1) 12) [
  | none ↦ none
  | some pos ↦ answers p len (be16 p 6) (pos + 5)
]

unfoldable pub set_found : Dns → Option (Option Ip) → Option Dns
set_found d none = none
set_found d (some none) = some (record d { done = true })
set_found d (some (some i)) = some (record d { done = true; result = i })

-- `none` means that the fuel ran out.
unfoldable pub dns_rx : Dns → Memory → ℕ → Option Dns
dns_rx d p len =
    if ltb len 12
    then some d
    else if not (be16 p 0 == d.tid)
    then some d
    else if be16 p 6 == 0
    then some (record d { done = true })
    else set_found d (find_address p len)

-- The last label of a name, newest character first: nothing behind a final dot.
unfoldable pub last_label : List ℕ → List ℕ
last_label [] = []
last_label (c ∷ cs) = u8 (length cs + 1) ∷ reverse (c ∷ cs)

-- The labels of a name: `label` is what has been read of the one that is open, newest first.
unfoldable pub labels : List ℕ → List ℕ → List ℕ
labels label [] = last_label label
labels label (c ∷ name) =
    let rest = labels [] name in
    let longer = labels (c ∷ label) name in
    if c == b'.' then u8 (length label) ∷ (reverse label ++ rest) else longer

-- The query for a host, which the code writes into 512 bytes without a test that it fits. The first
-- argument is the transaction's number.
unfoldable pub dns_query : ℕ → List ℕ → List ℕ
dns_query tid host =
    u8 (tid / 2 ^ 8)
    ∷ u8 tid
    ∷ 1
    ∷ 0
    ∷ 0
    ∷ 1
    ∷ 0
    ∷ 0
    ∷ 0
    ∷ 0
    ∷ 0
    ∷ 0
    ∷ (labels [] host ++ (0 ∷ 0 ∷ 1 ∷ 0 ∷ 1 ∷ []))

-- A datagram that comes to the resolver's port.
pub record Answer : Type 0 where
  pub content : Memory
  pub len : ℕ

-- One call of `eth_poll`, as far as it reaches dns.c.
unfoldable pub poll_round : Dns → List Answer → Option Dns
poll_round d [] = some d
poll_round d (a ∷ as') = elim (dns_rx d a.content a.len) [ none ↦ none | some e ↦ poll_round e as' ]

-- `while (... && !dns_done) eth_poll()`
unfoldable pub wait_answer : Dns → List (List Answer) → Option Dns
wait_answer d [] = some d
wait_answer d (r ∷ rs) =
    let rest : Option Dns = elim (poll_round d r) [ none ↦ none | some e ↦ wait_answer e rs ] in
    if d.done then some d else rest

-- The end of `dns_lookup`: the result, and the cache when there is one.
unfoldable pub conclude : List ℕ → Dns → Ip × Dns
conclude host d =
    if not d.done
    then (ip 0 0 0 0, d)
    else if ip_eq d.result (ip 0 0 0 0)
    then (ip 0 0 0 0, d)
    else (d.result, record d { cache = dns_cache_store host d.result d.cache })

-- What `dns_lookup` does when the cache does not hold the name: the result, and what it sends.
unfoldable pub ask : Dns → List ℕ → List (List Answer) → Option ((Ip × Dns) × Option IpSend)
ask d host rounds =
    let tid = u16 (d.tid + 1) in
    let query = udp_send d.server 53 1053 (dns_query tid host) in
    elim (wait_answer (record d { tid = tid; done = false; result = ip 0 0 0 0 }) rounds) [
      | none ↦ none
      | some e ↦ some (conclude host e, query)
    ]

unfoldable pub dns_lookup : Dns → List ℕ → List (List Answer) → Option ((Ip × Dns) × Option IpSend)
dns_lookup d host rounds =
    let asked = ask d host rounds in
    elim (dns_cache_lookup host d.cache) [ some i ↦ some ((i, d), none) | none ↦ asked ]

unfoldable pub clear_cache : List DnsEntry → List DnsEntry
clear_cache [] = []
clear_cache (e ∷ es) = record e { valid = false } ∷ clear_cache es

-- `cb` stands for `dns_rx`, and `ss` is the table of net/udp.c.
unfoldable pub dns_init : ℕ → Dns → Sockets → Dns × Option Sockets
dns_init cb d ss = (record d { cache = clear_cache d.cache }, udp_bind 1053 cb ss)

unfoldable pub dns_set_server : Ip → Dns → Dns
dns_set_server i d = record d { server = i }
