-- ===== src/Net/Http.antt =====
-- net/http.c: the parts of a URL, the request, and the reply, whose headers are skipped.
--
-- The resolver, the sockets and the heap are called through `Transport`, on a state of the kernel. A
-- request object is a value, which has one owner; `status` is never anything but 0 and is left out.
-- A null from `kmalloc` for it is written through and then returned, and so is `none`.
pub mod Laws
mod Examples
use chris_os.Base.{ℕ, zero, suc, ◌+◌, ◌-◌, ◌*◌, ◌/◌, ◌%◌, ◌^◌, ◌≤◌, ◌<◌, min, bit_and, ◌≡◌}
use chris_os.Base.{refl, sym, ap, ap₂, ◌∙◌, ◌≢◌, ◌↔◌, ◌⊎◌, inl, inr, Bool, true, false, not}
use chris_os.Base.{◌&&◌, ◌||◌, Option, none, some, List, [], ◌∷◌, ◌++◌, map, arith, ◌==◌, ltb}
use chris_os.Base.{leb, if◌then◌else◌, eq→==, ne→==, ==→eq, lt→ltb, le→ltb, Bool-cases}
use chris_os.Base.{Option-cases, length, get_or, set, take, drop, replicate, length-append}
use chris_os.Base.{length-set, length-replicate, get_or-set_self, get_or-set_ne, All}
use chris_os.Base.Text.{codes}
use chris_os.Base.Word.{u16}
use chris_os.Kernel.Text.{same_prefix}
use chris_os.Net.Types.{Ip}

pub record Url : Type 0 where
  pub host : List ℕ
  pub path : List ℕ
  pub port : ℕ

-- What stands in front of the first slash, and from it on.
unfoldable pub before_slash : List ℕ → List ℕ
before_slash [] = []
before_slash (c ∷ cs) = let rest = before_slash cs in if c == b'/' then [] else c ∷ rest

unfoldable pub from_slash : List ℕ → List ℕ
from_slash [] = []
from_slash (c ∷ cs) = let rest = from_slash cs in if c == b'/' then c ∷ cs else rest

unfoldable pub or_slash : List ℕ → List ℕ
or_slash [] = b'/' ∷ []
or_slash (c ∷ cs) = c ∷ cs

unfoldable pub parse_url : List ℕ → Url
unfolding before_slash from_slash or_slash
parse_url url =
    let p = if same_prefix 7 url (codes "http://") then drop 7 url else url in
    record { host = before_slash p; path = or_slash (from_slash p); port = 80 }

-- The bytes of the request; their number is kept in 16 bits.
unfoldable pub build_request : List ℕ → List ℕ → List ℕ
build_request host path =
    let tail = codes "\r\nConnection: close\r\n\r\n" in
    codes "GET " ++ (path ++ (codes " HTTP/1.0\r\nHost: " ++ (host ++ tail)))

-- What net/http.c calls.
pub record Transport (K : Type 0) : Type 0 where
  pub dns_lookup : List ℕ → K → Ip × K
  pub tcp_open : K → Option ℕ × K
  pub tcp_connect : ℕ → Ip → ℕ → K → Bool × K
  pub tcp_send : ℕ → List ℕ → K → K
  pub tcp_recv : ℕ → ℕ → K → List ℕ × K
  pub tcp_close : ℕ → K → K
  pub established : ℕ → K → Bool
  pub kmalloc : ℕ → K → Option ℕ × K
  pub kfree : ℕ → K → K
  pub complain : List ℕ → K → K

pub record HttpReq : Type 0 where
  pub object : ℕ
  pub sock : ℕ
  pub headers_done : Bool

-- `tmp[i]` to `tmp[i + 3]` are the two line ends behind the headers.
unfoldable pub starts_end : List ℕ → Bool
starts_end [] = false
starts_end (a ∷ []) = false
starts_end (a ∷ b ∷ []) = false
starts_end (a ∷ b ∷ c ∷ []) = false
starts_end (a ∷ b ∷ c ∷ d ∷ rest) = a == 13 && (b == 10 && (c == 13 && d == 10))

-- The search for the end of the headers: what comes behind it.
unfoldable pub body_of : List ℕ → Option (List ℕ)
unfolding starts_end
body_of [] = none
body_of (c ∷ cs) = if starts_end (c ∷ cs) then some (drop 4 (c ∷ cs)) else body_of cs

unfoldable pub is_no_address : Ip → Bool
is_no_address ip = ip.b0 == 0 && (ip.b1 == 0 && (ip.b2 == 0 && ip.b3 == 0))

module _ {K : Type 0} (transport : Transport K) where
  unfoldable pub http_get : List ℕ → K → Option HttpReq × K
  unfolding parse_url build_request is_no_address
  http_get text k =
      let url = parse_url text in
      let (ip, k) = transport.dns_lookup url.host k in
      elim (is_no_address ip) [
        | true ↦
            (none, transport.complain (codes "http: dns failed for " ++ (url.host ++ (10 ∷ []))) k)
        | false ↦
            let (opened, k) = transport.tcp_open k in
            elim opened [
              | none ↦ (none, k)
              | some sock ↦
                  let (connected, k) = transport.tcp_connect sock ip url.port k in
                  elim connected [
                    | false ↦ (none, transport.complain (codes "http: tcp connect failed\n") k)
                    | true ↦
                        let k = transport.tcp_send sock (build_request url.host url.path) k in
                        let (object, k) = transport.kmalloc 12 k in
                        elim object [
                          | none ↦ (none, k)
                          | some p ↦
                              (some (record { object = p; sock = sock; headers_done = false }), k)
                        ]
                  ]
            ]
      ]

  -- The bytes that are put into the buffer; their number is the result.
  unfoldable pub http_read : HttpReq → ℕ → K → List ℕ × (HttpReq × K)
  unfolding body_of
  http_read req max k = elim (transport.established req.sock k) [
    | false ↦ ([], (req, k))
    | true ↦
        let (tmp, k) = transport.tcp_recv req.sock 512 k in
        elim req.headers_done [
          | true ↦ (take max tmp, (req, k))
          | false ↦ elim (body_of tmp) [
            | none ↦ ([], (req, k))
            | some body ↦ (take max body, (record req { headers_done = true }, k))
          ]
        ]
  ]

  unfoldable pub http_close : HttpReq → K → K
  http_close req k = transport.kfree req.object (transport.tcp_close req.sock k)
