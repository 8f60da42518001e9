-- ===== src/Net/Arp/Laws.antt =====
-- The handler and the lookup of net/arp.c: what they send and what they learn.
use chris_os.Base.{◌<◌, ◌≡◌, refl, ◌∙◌, ◌⊎◌, inl, inr, none, some, List, [], ◌∷◌, Option-cases}
use chris_os.Base.{length, take}
use chris_os.Net.Arp.{Arp, Packet, EthSend, Cache, cache_store, cache_find, arp_packet}
use chris_os.Net.Arp.{arp_request, arp_handle, poll_round, wait_reply, arp_lookup, next_hop}
use chris_os.Net.Arp.Cache.{cache_find-cache_store}
use chris_os.Net.Types.{Ip, Mac, ip_eq_refl, htons, ntohs, mac_zero, bytes_at}

-- The packet of a call of `eth_send`, as the receiver sees it.
abbrev pub received : EthSend → Packet
received s = record { payload = bytes_at s.payload; len = length s.payload }

-- The reply of a host to a request for its address.
abbrev reply_of : Arp → Mac → Ip → EthSend
reply_of b mac i = record {
  dest = mac;
  type = 0x0806;
  payload = arp_packet 2 b.my_mac b.my_ip mac i;
}

handle-request :
    (a b : Arp)
    → arp_handle b (received (arp_request a b.my_ip)) ≡ (
      record b { cache = cache_store a.my_ip a.my_mac b.cache },
      reply_of b a.my_mac a.my_ip ∷ [],
    )
unfolding arp_handle arp_request arp_packet htons ntohs
handle-request a b = rw (ip_eq_refl b.my_ip) refl

handle-reply :
    (a b : Arp)
    → arp_handle a (received (reply_of b a.my_mac a.my_ip))
      ≡ (record a { cache = cache_store b.my_ip b.my_mac a.cache }, [])
unfolding arp_handle arp_packet htons ntohs
handle-reply a b = refl

-- A whole exchange between two hosts that run this code, with caches that have slots, of any
-- contents: host `a` asks for the address of host `b`, `b` answers with one packet addressed to
-- `a`, and `a` answers nothing. Then each finds the hardware address of the other in its cache.
pub request-reply :
    (a b : Arp)
    → 0 < length a.cache
    → 0 < length b.cache
    → let (b', out) = arp_handle b (received (arp_request a b.my_ip)) in
      (reply : EthSend) × (out ≡ reply ∷ [])
      × (reply.dest ≡ a.my_mac)
      × (cache_find a.my_ip b'.cache ≡ some a.my_mac)
      × ((arp_handle a (received reply)).1 ≡ [])
      × (cache_find b.my_ip (arp_handle a (received reply)).0.cache ≡ some b.my_mac)
request-reply a b ha hb = rw (handle-request a b) (
  reply_of b a.my_mac a.my_ip,
  refl,
  refl,
  found b.cache a.my_ip a.my_mac hb,
  rw (handle-reply a b) refl,
  rw (handle-reply a b) (found a.cache b.my_ip b.my_mac ha),
)
  where
    found :
        (c : Cache) (i : Ip) (m : Mac) → 0 < length c → cache_find i (cache_store i m c) ≡ some m
    found c i m ne = (cache_find-cache_store i i m c ne).0 ∙ rw (ip_eq_refl i) refl

-- What the waiting loop returns is what the cache then holds for the address.
wait_reply-finds :
    (i : Ip) (a : Arp) (rounds : List (List Packet))
    → cache_find i a.cache ≡ none
    → cache_find i (wait_reply i a rounds).1.cache ≡ (wait_reply i a rounds).0
unfolding wait_reply
wait_reply-finds i a [] h = h
wait_reply-finds i a (r ∷ rs) h = elim (Option-cases (cache_find i (poll_round a r).0.cache)) [
  | inl no_reply ↦ rw (no_reply, wait_reply) (wait_reply-finds i (poll_round a r).0 rs no_reply)
  | inr (m, found) ↦ rw (found, wait_reply) found
]

-- `arp_lookup` of any destination, whatever packets arrive while it waits. An address in the cache
-- is returned with nothing sent and nothing changed. Otherwise the first packet sent is a
-- broadcast request for the next hop, and the result is what the cache holds for the next hop in
-- the end, or the zero address if it holds nothing.
pub arp_lookup_lem :
    (a : Arp) (dest : Ip) (rounds : List (List Packet))
    → let (m, a', out) = arp_lookup a dest rounds in
      ((cache_find (next_hop a dest) a.cache ≡ some m) × (a' ≡ a) × (out ≡ []))
      ⊎ ((take 1 out ≡ arp_request a (next_hop a dest) ∷ [])
          × (m ≡ elim (cache_find (next_hop a dest) a'.cache) [ some x ↦ x | none ↦ mac_zero ]))
unfolding arp_lookup
arp_lookup_lem a dest rounds = elim (Option-cases (cache_find (next_hop a dest) a.cache)) [
  | inl miss ↦
      let kept = wait_reply-finds (next_hop a dest) a rounds miss in
      rw (miss, arp_lookup) (inr (refl, rw kept refl))
  | inr (m, hit) ↦ rw (hit, arp_lookup) (inl (refl, refl, refl))
]
