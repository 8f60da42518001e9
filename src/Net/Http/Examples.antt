-- ===== src/Net/Http/Examples.antt =====
-- The witnesses of net/http.c, on a connection whose next chunk is the state.
use chris_os.Base.{ℕ, ◌≡◌, refl, true, false, none, some, List, [], ◌++◌, take, drop}
use chris_os.Base.Text.{codes}
use chris_os.Net.Http.{Transport, HttpReq, body_of, starts_end, http_read}
use chris_os.Net.Http.Laws.{end_mark, IsHeader, http_read-append}

abbrev connection : Transport (List ℕ)
connection = record {
  dns_lookup = λ host k. (record { b0 = 10; b1 = 0; b2 = 2; b3 = 2 }, k);
  tcp_open = λ k. (some 0, k);
  tcp_connect = λ sock ip port k. (true, k);
  tcp_send = λ sock bytes k. k;
  tcp_recv = λ sock max k. (take max k, drop max k);
  tcp_close = λ sock k. [];
  established = λ sock k. true;
  kmalloc = λ size k. (some 0x200000, k);
  kfree = λ p k. k;
  complain = λ text k. k;
}

abbrev request : HttpReq
request = record { object = 0x200000; sock = 0; headers_done = false }

abbrev headers : List ℕ
headers = codes "HTTP/1.0 200 OK"

headers-IsHeader : IsHeader headers
unfolding IsHeader starts_end
headers-IsHeader = search

http_read-append_example :
    ((http_read connection request 512 (headers ++ (end_mark ++ codes "hello"))).0
      ≡ take 512 (codes "hello"))
    × ((http_read connection request 512 (headers ++ (end_mark ++ codes "hello"))).1.0.headers_done
        ≡ true)
http_read-append_example =
    http_read-append connection request 512 (headers ++ (end_mark ++ codes "hello")) headers
      (codes "hello") refl refl refl headers-IsHeader

no_end : body_of headers ≡ none
unfolding body_of starts_end
no_end = refl
