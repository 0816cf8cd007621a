-- ===== src/Url/Unix.antt =====
-- `pgrest_inet_parse_unix` of src/pg_rest_inet.c.
use pg_rest.Base.{
  ℕ, suc, ◌+◌, ◌-◌, [], ◌∷◌, ◌++◌, ltb, ◌==◌, if◌then◌else◌, length, take, drop, replicate,
}
use pg_rest.Text.{Bytes}
use pg_rest.Inet.{af_unix, c_string}
use pg_rest.Url.{no_path, too_long_path, Url, Outcome, reject, accept, zero_sockaddr}

-- `StrNCpy(dst, src, len + 1)` into a longer array: the text up to its first zero, zeros up to
-- `len + 1` bytes, and what was there before.
unfoldable pub str_n_cpy : Bytes → ℕ → Bytes → Bytes
str_n_cpy dst len src =
    let s = c_string (take len src) in s ++ replicate (suc len - length s) 0 ++ drop (suc len) dst

-- `pgrest_inet_parse_unix`. `sun_path` has 108 bytes, and the structure 110.
unfoldable pub parse_unix : Url → Outcome
unfolding str_n_cpy
parse_unix u =
    let path = drop 5 u.url in
    if length path == 0
    then reject no_path u
    else if ltb 108 (length path + 1)
    then reject too_long_path (record u { host = path })
    else accept (record u {
      host = path;
      socklen = 110;
      sockaddr = record (u.sockaddr) {
        family = af_unix;
        path = str_n_cpy u.sockaddr.path (length path) path;
      };
      family = af_unix;
      addrs =
          record {
            sockaddr = record zero_sockaddr {
              family = af_unix;
              path = str_n_cpy zero_sockaddr.path (length path) path;
            };
            socklen = 110;
            name = u.url;
          }
          ∷ [];
    })
