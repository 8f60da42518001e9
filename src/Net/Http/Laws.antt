-- ===== src/Net/Http/Laws.antt =====
-- The parts of a URL and the end of the headers, as net/http.c finds them.
use chris_os.Base.{ℕ, ◌≤◌, ◌≡◌, refl, sym, ap, ◌∙◌, ◌≢◌, inl, inr, true, false, none, some}
use chris_os.Base.{List, [], ◌∷◌, ◌++◌, arith, ne→==, Bool-cases, length, take, length-append}
use chris_os.Base.{All}
use chris_os.Base.Text.{codes}
use mathlib.Core.List.{append_assoc}
use chris_os.Kernel.Text.{same_prefix}
use chris_os.Net.Http.{before_slash, from_slash, or_slash, parse_url, Transport, HttpReq}
use chris_os.Net.Http.{starts_end, body_of, http_read}

unfoldable pub NoSlash : List ℕ → Type 0
NoSlash cs = All (λ c. c ≢ b'/') cs

before_slash-append :
    (host rest : List ℕ) → NoSlash host → before_slash (host ++ (b'/' ∷ rest)) ≡ host
unfolding before_slash NoSlash
before_slash-append [] rest h = refl
before_slash-append (c ∷ host) rest (ne, h) =
    rw (before_slash, ne→== c b'/' ne) (ap (λ t. c ∷ t) (before_slash-append host rest h))

from_slash-append :
    (host rest : List ℕ) → NoSlash host → from_slash (host ++ (b'/' ∷ rest)) ≡ b'/' ∷ rest
unfolding from_slash NoSlash
from_slash-append [] rest h = refl
from_slash-append (c ∷ host) rest (ne, h) =
    rw (from_slash, ne→== c b'/' ne) (from_slash-append host rest h)

-- A URL with a scheme, a host without a slash and a path: the host and the path come out as they
-- stand in it, whatever is in the path, and the port is 80.
pub parse_url-append :
    (host rest : List ℕ)
    → NoSlash host
    → parse_url (codes "http://" ++ (host ++ (b'/' ∷ rest)))
      ≡ record { host = host; path = b'/' ∷ rest; port = 80 }
unfolding parse_url same_prefix or_slash
parse_url-append host rest h =
    rw (before_slash-append host rest h, from_slash-append host rest h) refl

abbrev pub end_mark : List ℕ
end_mark = 13 ∷ 10 ∷ 13 ∷ 10 ∷ []

-- Whether the first four bytes are the mark, more bytes behind them do not matter.
starts_end-append : (xs ys : List ℕ) → 4 ≤ length xs → starts_end (xs ++ ys) ≡ starts_end xs
unfolding starts_end
starts_end-append [] ys h = absurd (omega arith)
starts_end-append (a ∷ []) ys h = absurd (omega arith)
starts_end-append (a ∷ b ∷ []) ys h = absurd (omega arith)
starts_end-append (a ∷ b ∷ c ∷ []) ys h = absurd (omega arith)
starts_end-append (a ∷ b ∷ c ∷ d ∷ xs) ys h = refl

-- The mark does not begin anywhere in these headers, when the mark itself follows.
unfoldable pub IsHeader : List ℕ → Type 0
IsHeader [] = Unit
IsHeader (c ∷ cs) = (starts_end (c ∷ (cs ++ (13 ∷ 10 ∷ 13 ∷ []))) ≡ false) × IsHeader cs

body_of-append :
    (headers body : List ℕ) → IsHeader headers → body_of (headers ++ (end_mark ++ body)) ≡ some body
unfolding body_of starts_end IsHeader
body_of-append [] body h = refl
body_of-append (c ∷ cs) body (ne, h) =
    let mark = 13 ∷ 10 ∷ 13 ∷ [] in
    let same : (cs ++ mark) ++ (10 ∷ body) ≡ cs ++ (end_mark ++ body) =
      append_assoc cs mark (10 ∷ body) in
    let four : 4 ≤ length (c ∷ (cs ++ mark)) = omega (arith, length-append cs mark) in
    let early : starts_end (c ∷ (cs ++ (end_mark ++ body))) ≡ false =
      ap (λ t. starts_end (c ∷ t)) (sym same)
      ∙ (starts_end-append (c ∷ (cs ++ mark)) (10 ∷ body) four ∙ ne) in
    rw (body_of, early) (body_of-append cs body h)

module _ {K : Type 0} (transport : Transport K) where
  -- The chunk that has the end of the headers in it: exactly what comes behind it is returned, as
  -- much of it as there is room for, and from then on the chunks are returned as they come.
  pub http_read-append :
      (req : HttpReq) (max : ℕ) (k : K) (headers body : List ℕ)
      → transport.established req.sock k ≡ true
      → req.headers_done ≡ false
      → (transport.tcp_recv req.sock 512 k).0 ≡ headers ++ (end_mark ++ body)
      → IsHeader headers
      → ((http_read transport req max k).0 ≡ take max body)
        × ((http_read transport req max k).1.0.headers_done ≡ true)
  unfolding http_read
  http_read-append req max k headers body a b c h =
      let found = ap body_of c ∙ body_of-append headers body h in
      rw (http_read, a, b, found) (refl, refl)

  -- A chunk without the end of the headers gives no bytes, which is what the end of the reply gives.
  pub http_read-late :
      (req : HttpReq) (max : ℕ) (k : K)
      → req.headers_done ≡ false
      → body_of (transport.tcp_recv req.sock 512 k).0 ≡ none
      → (http_read transport req max k).0 ≡ []
  unfolding http_read
  http_read-late req max k b c = elim (Bool-cases (transport.established req.sock k)) [
    | inl e ↦ rw (http_read, e, b, c) refl
    | inr e ↦ rw (http_read, e) refl
  ]
