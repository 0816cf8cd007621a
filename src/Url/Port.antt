-- ===== src/Url/Port.antt =====
-- The port of an accepted URL.
use pg_rest.Base.{ℕ, ◌≤◌, ◌≡◌, true, false, Option, none, some, List, [], ◌∷◌}
use pg_rest.Text.{Bytes}
use pg_rest.Inet.{Sockaddr, htons}
use pg_rest.Url.{Addr, Url, Outcome}
use pg_rest.Url.Resolve.{AddrInfo}

-- The port is one that TCP has, and the socket address carries it in network order.
pub record HasPort (u : Url) : Type 0 where
  pub low : 1 ≤ u.port
  pub high : u.port ≤ 65535
  pub stored : u.sockaddr.port ≡ htons u.port

-- `P` holds of the structure that a successful parse leaves.
unfoldable pub Ensures : (Url → Type 0) → Outcome → Type 0
Ensures P none = Unit {0}
Ensures P (some (false, u)) = Unit {0}
Ensures P (some (true, u)) = P u

module _ (getaddrinfo : Bytes → Option (List AddrInfo))
    (evutil_inet_ntop : ℕ → Sockaddr → ℕ → Option Bytes) where
  -- Every address of a resolved host carries the port.
  abbrev Carry : ℕ → List Addr → Type 0
  Carry port [] = Unit {0}
  Carry port (a ∷ as') = (a.sockaddr.port ≡ port) × Carry port as'
