-- ===== src/Http/Header/Checks.antt =====
-- What each check of `pgrest_http_process_header` of src/pg_rest_http_v1.c leaves of a request.
use pg_rest.Base.{
  ℕ, ◌<◌, ◌≤◌, ◌≡◌, ◌≢◌, ◌⊎◌, refl, ap, sym, Bool, true, false, ◌&&◌, Option, none, some, ◌==◌,
  arith, inl, inr, Bool-cases, Option-cases, ltb,
}
use mathlib.Core.Option.{none-ne-some}
use pg_rest.Base.Int.{ℤ, pos, negsuc}
use pg_rest.Text.{Bytes, bytes, atoof, atotm}
use pg_rest.Http.Header.{
  Param, Ended, finalized, Req, version_10, method_trace, connection_keep_alive, time_of, Outcome,
  passed, refused, next, finalize, check_host, check_length, check_method, same_word,
  check_transfer, check_keep_alive,
}

-- A rule for two steps in a row.
pub next-rule :
    (P Q : Outcome → Type 0) (o : Outcome) (step : Req → Outcome)
    → P o
    → ((r : Req) → P (passed r) → Q (step r))
    → ((r : Req) → P (refused r) → Q (refused r))
    → Q (next o step)
unfolding next
next-rule P Q (passed r) step p pass refuse = pass r p
next-rule P Q (refused r) step p pass refuse = refuse r p

-- There is a Host header, or the request is of HTTP/1.0 or older.
abbrev pub Named : Req → Type 0
Named req = (req.host ≢ none) ⊎ (req.http_version ≤ version_10)

-- The number is that of the Content-Length header; without one it is what it was.
unfoldable pub Measured : Option Param → ℤ → ℤ → Type 0
Measured none before n = n ≡ before
Measured (some header) before n = (k : ℕ) × (atoof header.value ≡ some k) × (n ≡ pos k)

unfoldable pub Unmeasured : Option Param → Type 0
Unmeasured none = ⊥
Unmeasured (some header) = atoof header.value ≡ none

-- A Transfer-Encoding header is the word, in any case of its letters.
unfoldable pub encoded_as : Bytes → Option Param → Bool
unfolding same_word
encoded_as word none = false
encoded_as word (some header) = same_word header.value word

abbrev pub is_chunked : Req → Bool
is_chunked req = encoded_as (bytes "chunked") req.transfer_encoding

-- What the body is measured by: by its chunks, whatever the Content-Length says, or by that.
abbrev pub Sized : Req → Req → Type 0
Sized req r =
    ((is_chunked req ≡ true)
      × (r.chunked ≡ true)
      × (r.content_length ≡ none)
      × (r.content_length_n ≡ negsuc 0))
    ⊎ ((is_chunked req ≡ false)
        × (r.chunked ≡ req.chunked)
        × Measured req.content_length req.content_length_n r.content_length_n)

abbrev pub Refusal : Req → Option Ended → Type 0
Refusal req ended =
    ((req.host ≡ none) × (version_10 < req.http_version) × (ended ≡ some (finalized 400)))
    ⊎ ((Unmeasured req.content_length × (ended ≡ some (finalized 400)))
        ⊎ (((req.method ≡ method_trace) × (ended ≡ some (finalized 405)))
            ⊎ ((req.transfer_encoding ≢ none)
                × (is_chunked req ≡ false)
                × (encoded_as (bytes "identity") req.transfer_encoding ≡ false)
                × (ended ≡ some (finalized 501)))))

-- No Transfer-Encoding header, or one of the two that are known.
abbrev pub Known : Req → Type 0
Known req =
    (req.transfer_encoding ≡ none)
    ⊎ ((is_chunked req ≡ true) ⊎ (encoded_as (bytes "identity") req.transfer_encoding ≡ true))

unfoldable pub Verdict : Req → Outcome → Type 0
Verdict req (passed r) =
    Named req
    × ¬ Unmeasured req.content_length
    × (req.method ≢ method_trace)
    × Known req
    × Sized req r
    × (r.http_version ≡ req.http_version)
Verdict req (refused r) = Refusal req r.ended

and_false : (b : Bool) → (b && false) ≡ false
and_false true = refl
and_false false = refl

-- What each check leaves: a request of which `P` holds, or the refusal of `req`.
abbrev pub Checked : Req → (Req → Type 0) → Outcome → Type 0
Checked req P (passed r) = P r
Checked req P (refused r) = Refusal req r.ended

module _ (req : Req) where
  pub check_host-Checked : Checked req (λ r. (r ≡ req) × Named req) (check_host req)
  unfolding check_host finalize
  check_host-Checked = elim (Option-cases req.host) [
    | inl e ↦ elim (Bool-cases (ltb version_10 req.http_version)) [
      | inl lt ↦ simp (and_false, e, lt, check_host) (inl (refl, newer lt, refl))
      | inr lt ↦ simp (and_false, e, lt, check_host) (refl, inr (older lt))
    ]
    | inr (h, e) ↦ simp (and_false, e, check_host) (refl, inl (λ n. none-ne-some h (sym n)))
  ]
    where
      newer : ltb version_10 req.http_version ≡ true → version_10 < req.http_version
      newer h = ground arith

      older : ltb version_10 req.http_version ≡ false → req.http_version ≤ version_10
      older h = ground arith

  -- The request with the length that was read.
  unfoldable pub Lengthy : Req → Type 0
  Lengthy r =
      (n : ℤ) × (r ≡ record req { content_length_n = n })
      × Measured req.content_length req.content_length_n n
      × ¬ Unmeasured req.content_length

  pub check_length-Checked : Checked req Lengthy (check_length req)
  unfolding check_length finalize Lengthy Measured Unmeasured
  check_length-Checked = elim (Option-cases req.content_length) [
    | inl e ↦
        simp (e, check_length)
          (req.content_length_n, ap (λ o. record req { content_length = o }) e, refl, λ u. u)
    | inr (h, e) ↦ elim (Option-cases (atoof h.value)) [
      | inl f ↦ simp (e, f, check_length) (inr (inl (refl, refl)))
      | inr (n, f) ↦
          simp (e, f, check_length) (pos n, refl, (n, refl, refl), λ u. none-ne-some n (sym u))
    ]
  ]

  pub check_method-Checked :
      Checked req (λ r. (r ≡ req) × (req.method ≢ method_trace)) (check_method req)
  unfolding check_method finalize
  check_method-Checked = elim (Bool-cases (req.method == method_trace)) [
    | inl e ↦ simp (e, check_method) (inr (inr (inl (is_trace e, refl))))
    | inr e ↦ simp (e, check_method) (refl, not_trace e)
  ]
    where
      is_trace : (req.method == method_trace) ≡ true → req.method ≡ method_trace
      is_trace h = ground arith

      not_trace : (req.method == method_trace) ≡ false → req.method ≢ method_trace
      not_trace h e = ground arith

  -- The request as it is after the transfer encoding.
  unfoldable pub Encoded : Req → Type 0
  Encoded r =
      Known req
      × (((is_chunked req ≡ true)
            × (r ≡ record req {
              content_length = none;
              content_length_n = negsuc 0;
              chunked = true;
            }))
          ⊎ ((is_chunked req ≡ false) × (r ≡ req)))

  pub check_transfer-Checked : Checked req Encoded (check_transfer req)
  unfolding check_transfer finalize Encoded encoded_as
  check_transfer-Checked = elim (Option-cases req.transfer_encoding) [
    | inl e ↦ simp (e, check_transfer) (inl refl, inr (refl, refl))
    | inr (h, e) ↦ elim (Bool-cases (same_word h.value (bytes "chunked"))) [
      | inl c ↦ simp (e, c, check_transfer) (inr (inl refl), inl (refl, refl))
      | inr c ↦ elim (Bool-cases (same_word h.value (bytes "identity"))) [
        | inl d ↦ simp (e, c, d, check_transfer) (inr (inr refl), inr (refl, refl))
        | inr d ↦
            simp (e, c, d, check_transfer)
              (inr (inr (inr (λ n. none-ne-some h (sym n), refl, refl, refl))))
      ]
    ]
  ]

-- The last check refuses nothing.
abbrev pub Timed : Req → Outcome → Type 0
Timed r (passed q) = (n : ℤ) × (q ≡ record r { keep_alive_n = n })
Timed r (refused q) = ⊥

pub check_keep_alive-Timed : (r : Req) → Timed r (check_keep_alive r)
unfolding check_keep_alive
check_keep_alive-Timed r = elim (Bool-cases (r.connection_type == connection_keep_alive)) [
  | inl c ↦ elim (Option-cases r.keep_alive) [
    | inl e ↦
        simp (c, e, check_keep_alive) (r.keep_alive_n, ap (λ o. record r { keep_alive = o }) e)
    | inr (h, e) ↦ simp (c, e, check_keep_alive) (time_of (atotm h.value), refl)
  ]
  | inr c ↦ simp (c, check_keep_alive) (r.keep_alive_n, refl)
]
