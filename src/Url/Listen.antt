-- ===== src/Url/Listen.antt =====
-- Whole URLs: an IPv4 address with a port, and a text too long for the buffer of `pgrest_atoi`.
use pg_rest.Base.{
  ℕ, suc, ◌+◌, ◌*◌, ◌^◌, ◌≤◌, ◌<◌, ◌≡◌, ◌≢◌, refl, sym, ap, ◌∙◌, subst, true, false, ◌&&◌, Option,
  none, some, List, [], ◌∷◌, ◌++◌, map, append-nil, append_assoc, arith, length, leb, ◌==◌,
  if◌then◌else◌, take, drop, take-append_self,
}
use pg_rest.Base.Int.{pos}
use pg_rest.Text.{Bytes, tolower, strlchr, atoi}
use pg_rest.Text.Decimal.{decimal, Numeric, decimal-Numeric, Digits, decimal-Digits, atoi-decimal}
use pg_rest.Text.Search.{Lacks}
use pg_rest.Inet.{Sockaddr, af_inet, htons, inaddr_none, same_bytes, inet_addr}
use pg_rest.Inet.Addr.{dotted, inet_addr-dotted}
use pg_rest.Url.{Addr, Url, Outcome, port_of, with_port, accept, name_with_port}
use pg_rest.Url.Resolve.{AddrInfo}
use pg_rest.Url.Parse.{parse_host, parse_only_port, parse_with_port, parse_inet, parse_url}

strlchr-append : (s t : Bytes) (c : ℕ) → Lacks c s → strlchr (s ++ (c ∷ t)) c ≡ some (length s)
unfolding strlchr
strlchr-append [] t c h = ground arith
strlchr-append (b ∷ s) t c h = ground (arith, strlchr-append s t c h.1)

strlchr-Lacks : (s : Bytes) (c : ℕ) → Lacks c s → strlchr s c ≡ none
unfolding strlchr
strlchr-Lacks [] c h = refl
strlchr-Lacks (b ∷ s) c h = ground (arith, strlchr-Lacks s c h.1)

Lacks-append : (c : ℕ) (s t : Bytes) → Lacks c s → Lacks c t → Lacks c (s ++ t)
Lacks-append c [] t h k = k
Lacks-append c (b ∷ s) t h k = (h.0, Lacks-append c s t h.1 k)

drop-suc : (s t : Bytes) (c : ℕ) → drop (suc (length s)) (s ++ (c ∷ t)) ≡ t
drop-suc [] t c = refl
drop-suc (b ∷ s) t c = drop-suc s t c

abbrev unix_prefix : Bytes
unix_prefix = b'u' ∷ b'n' ∷ b'i' ∷ b'x' ∷ b':' ∷ []

-- A text that begins with a digit is neither a Unix socket nor an IPv6 address.
no_scheme :
    (t : Bytes)
    → Numeric t
    → ((leb 5 (length t) && same_bytes (map tolower (take 5 t)) unix_prefix) ≡ false)
      × (same_bytes (take 1 t) (b'[' ∷ []) ≡ false)
unfolding same_bytes tolower
no_scheme [] h = absurd h
no_scheme (c ∷ s) h = (ground arith, ground arith)

no_unix :
    (t : Bytes)
    → Lacks b':' t
    → (leb 5 (length t) && same_bytes (map tolower (take 5 t)) unix_prefix) ≡ false
unfolding same_bytes tolower
no_unix [] h = refl
no_unix (a ∷ []) h = refl
no_unix (a ∷ b ∷ []) h = refl
no_unix (a ∷ b ∷ c ∷ []) h = refl
no_unix (a ∷ b ∷ c ∷ d ∷ []) h = refl
no_unix (a ∷ b ∷ c ∷ d ∷ e ∷ s) h = ground arith

Digits-Lacks : (s : Bytes) → Digits s → Lacks b':' s
Digits-Lacks [] h = tt
Digits-Lacks (d ∷ s) h = (omega arith, Digits-Lacks s h.2)

Lacks-dotted : (a b c d : ℕ) → Lacks b':' (dotted a b c d)
Lacks-dotted a b c d =
    let n : (k : ℕ) (s : Bytes) → Lacks b':' s → Lacks b':' (decimal k ++ (b'.' ∷ s)) = λ k s h.
      Lacks-append b':' (decimal k) (b'.' ∷ s) (Digits-Lacks _ (decimal-Digits k))
        (omega arith, h) in
    n a _ (n b _ (n c _ (Digits-Lacks _ (decimal-Digits d))))

Numeric-dotted : (a b c d : ℕ) (t : Bytes) → Numeric (dotted a b c d ++ t)
Numeric-dotted a b c d t = rw (append_assoc (decimal a) _ t) (decimal-Numeric a _)

with_port_overrun :
    (text : Bytes) (u : Url) (k : ℕ → Outcome) → 32 ≤ length text → with_port text u k ≡ none
unfolding with_port
with_port_overrun text u k h =
    let e : atoi text ≡ none = unfold atoi in ground arith in rw (e, with_port) refl

with_port-decimal :
    (text : Bytes) (u : Url) (p : ℕ) (k : ℕ → Outcome)
    → text ≡ decimal p
    → 1 ≤ p
    → p ≤ 65535
    → with_port text u k ≡ k p
unfolding with_port
with_port-decimal text u p k e lo hi =
    let n : atoi text ≡ some (pos p) = ap atoi e ∙ atoi-decimal p (omega arith) in
    let q : port_of (pos p) ≡ some p = unfold port_of in ground arith in rw (n, with_port, q) refl

module _ (getaddrinfo : Bytes → Option (List AddrInfo))
    (evutil_inet_ntop : ℕ → Sockaddr → ℕ → Option Bytes) where
  parse_url-eq :
      (u : Url)
      → ((leb 5 (length u.url) && same_bytes (map tolower (take 5 u.url)) unix_prefix) ≡ false)
      → same_bytes (take 1 u.url) (b'[' ∷ []) ≡ false
      → parse_url getaddrinfo evutil_inet_ntop u ≡ parse_inet getaddrinfo evutil_inet_ntop u
  unfolding parse_url
  parse_url-eq u h k = rw (h, parse_url, k) refl

  parse_inet-only_port :
      (u : Url)
      → strlchr u.url b':' ≡ none
      → u.listen ≡ true
      → let v = record u {
        socklen = 16;
        sockaddr = record (u.sockaddr) { family = af_inet };
        family = af_inet;
        listen = true;
      } in
        parse_inet getaddrinfo evutil_inet_ntop u ≡ parse_only_port getaddrinfo evutil_inet_ntop v
  unfolding parse_inet
  parse_inet-only_port u e l = rw (e, parse_inet, l) refl

  parse_only_port_overrun :
      (u : Url) → 32 ≤ length u.url → parse_only_port getaddrinfo evutil_inet_ntop u ≡ none
  unfolding parse_only_port
  parse_only_port_overrun u h = with_port_overrun u.url u _ h

  -- Listening on a text of 32 bytes or more with no colon that does not begin with an opening bracket,
  -- whatever its end, writes past the buffer of `pgrest_atoi`.
  pub parse_url_overrun :
      (u : Url)
      → u.listen ≡ true
      → Lacks b':' u.url
      → same_bytes (take 1 u.url) (b'[' ∷ []) ≡ false
      → 32 ≤ length u.url
      → parse_url getaddrinfo evutil_inet_ntop u ≡ none
  parse_url_overrun u l c b h =
      parse_url-eq u (no_unix u.url c) b
      ∙ parse_inet-only_port u (strlchr-Lacks u.url b':' c) l
      ∙ parse_only_port_overrun _ h

  parse_inet-with_port :
      (u : Url) (i : ℕ)
      → strlchr u.url b':' ≡ some i
      → let v = record u {
        socklen = 16;
        sockaddr = record (u.sockaddr) { family = af_inet };
        family = af_inet;
      } in
        parse_inet getaddrinfo evutil_inet_ntop u ≡ parse_with_port getaddrinfo evutil_inet_ntop i v
  unfolding parse_inet
  parse_inet-with_port u i e = rw (e, parse_inet) refl

  parse_with_port-eq :
      (u : Url) (i p : ℕ)
      → drop (suc i) u.url ≡ decimal p
      → 1 ≤ p
      → p ≤ 65535
      → parse_with_port getaddrinfo evutil_inet_ntop i u
        ≡ parse_host getaddrinfo evutil_inet_ntop (take i u.url) (record u {
          port = p;
          sockaddr = record (u.sockaddr) { port = htons p };
          port_text = drop (suc i) u.url;
        })
  unfolding parse_with_port
  parse_with_port-eq u i p e lo hi = with_port-decimal (drop (suc i) u.url) u p _ e lo hi

  parse_host-eq :
      (host : Bytes) (u : Url)
      → Numeric host
      → inet_addr host ≢ inaddr_none
      → let sin = record (u.sockaddr) { addr = inet_addr host } in
        parse_host getaddrinfo evutil_inet_ntop host u
        ≡ accept (record u {
          host = host;
          sockaddr = sin;
          wildcard = if inet_addr host == 0 then true else u.wildcard;
          addrs = record { sockaddr = sin; socklen = 16; name = name_with_port host u.port } ∷ [];
        })
  unfolding parse_host same_bytes
  parse_host-eq [] u n h = absurd n
  parse_host-eq (c ∷ s) u n h =
      let star : (u.listen && (c == b'*' && same_bytes s [])) ≡ false = ground arith in
      let found : (inet_addr (c ∷ s) == inaddr_none) ≡ false = ground arith in
      let full : (suc (length s) == 0) ≡ false = ground arith in
      rw (full, parse_host, star, found) refl

  -- A dotted address other than 255.255.255.255 with a port from 1 to 65535 parses to that address and
  -- that port.
  pub parse_url-dotted :
      (u : Url) (a b c d p : ℕ)
      → a ≤ 255
      → b ≤ 255
      → c ≤ 255
      → d ≤ 255
      → a + b + c + d < 4 * 255
      → 1 ≤ p
      → p ≤ 65535
      → u.url ≡ dotted a b c d ++ (b':' ∷ decimal p)
      → (v : Url) × (parse_url getaddrinfo evutil_inet_ntop u ≡ some (true, v))
        × (v.port ≡ p)
        × (v.sockaddr.family ≡ af_inet)
        × (v.sockaddr.port ≡ htons p)
        × (v.sockaddr.addr ≡ a + b * 2 ^ 8 + c * 2 ^ 16 + d * 2 ^ 24)
        × (map (λ (r : Addr). r.name) v.addrs ≡ u.url ∷ [])
  unfolding name_with_port
  parse_url-dotted u a b c d p ha hb hc hd other lo hi e =
      let text = dotted a b c d in
      let start : Numeric u.url = rw e (Numeric-dotted a b c d (b':' ∷ decimal p)) in
      let found : strlchr u.url b':' ≡ some (length text) =
        rw e (strlchr-append text (decimal p) b':' (Lacks-dotted a b c d)) in
      let host : take (length text) u.url ≡ text = rw e (take-append_self _ text _ refl) in
      let port : drop (suc (length text)) u.url ≡ decimal p =
        rw e (drop-suc text (decimal p) b':') in
      let addr : inet_addr text ≡ a + b * 2 ^ 8 + c * 2 ^ 16 + d * 2 ^ 24 =
        inet_addr-dotted a b c d ha hb hc hd in
      let (s, t) = no_scheme u.url start in
      let v = record u {
        socklen = 16;
        sockaddr = record (u.sockaddr) { family = af_inet };
        family = af_inet;
      } in
      let w = record v {
        port = p;
        sockaddr = record (v.sockaddr) { port = htons p };
        port_text = drop (suc (length text)) u.url;
      } in
      (
        _,
        parse_url-eq u s t
            ∙ parse_inet-with_port u (length text) found
            ∙ parse_with_port-eq v (length text) p port lo hi
            ∙ ap (λ h. parse_host getaddrinfo evutil_inet_ntop h w) host
            ∙ parse_host-eq text w (subst Numeric (append-nil text) (Numeric-dotted a b c d []))
                (omega (arith, addr)),
        refl,
        refl,
        refl,
        addr,
        ap (λ s. s ∷ []) (sym e),
      )
