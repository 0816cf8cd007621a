-- ===== src/Http/Header.antt =====
-- The processing of the header in src/pg_rest_http_v1.c, with pgrest_http_header_add of
-- src/pg_rest_http_header.c and pgrest_http_test_expect of src/pg_rest_http_request.c. A pointer to a header is the header, and a number that the code sets to
-- -1 is an integer. What the parser read is the list of headers.

pub mod Checks
pub mod Accept
pub mod Unseen
mod Tests
use pg_rest.Base.{
  ℕ, ◌^◌, Bool, true, false, not, ◌&&◌, ◌||◌, ◌+◌, Option, none, some, List, [], ◌∷◌, ◌==◌,
  if◌then◌else◌, map, length, get_elem?, leb, ltb,
}
use pg_rest.Base.Int.{ℤ, pos, negsuc}
use pg_rest.Text.{Bytes, bytes, strtolower, atoof, atotm}
use pg_rest.Array.{Array, init, push, write}
use pg_rest.Inet.{same_bytes}
use pg_rest.Http.Token.{Token}
use pg_rest.Http.Token.Find.{find_token}

-- `pgrest_param_t`
pub record Param : Type 0 where
  pub key : Bytes
  pub value : Bytes

-- How a request was ended, with the status: by `pgrest_http_close_request` or by
-- `pgrest_http_finalize_request`.
pub data Ended : Type 0 where
  closed finalized : ℕ → Ended

-- The fields of `pgrest_http_request_t` and of its `headers_in` that the processing uses.
pub record Req : Type 0 where
  pub http_version : ℕ
  pub method : ℕ
  pub headers : Array Param
  pub host : Option Param
  pub content_length : Option Param
  pub transfer_encoding : Option Param
  pub keep_alive : Option Param
  pub expect : Option Param
  pub server : Bytes
  pub content_length_n : ℤ
  pub keep_alive_n : ℤ
  pub connection_type : ℕ
  pub chunked : Bool
  pub expect_tested : Bool
  pub ended : Option Ended

-- `PGREST_HTTP_VERSION_10`, `PGREST_HTTP_TRACE`, `PGREST_HTTP_CONNECTION_KEEP_ALIVE`
abbrev pub version_10 : ℕ
version_10 = 1000

-- `0x100 | (minor_version != 0)` of `pgrest_http_header_handler`
unfoldable pub version_of : ℕ → ℕ
version_of minor_version = if minor_version == 0 then 0x100 else 0x101

abbrev pub method_trace : ℕ
method_trace = 0x8000

abbrev pub connection_keep_alive : ℕ
connection_keep_alive = 2

-- What a function that returns `bool` returns, with the request.
pub data Outcome : Type 0 where
  passed refused : Req → Outcome

-- The next step, where the one before returned true.
unfoldable pub next : Outcome → (Req → Outcome) → Outcome
next (passed req) step = step req
next (refused req) step = refused req

unfoldable pub finalize : ℕ → Req → Outcome
finalize status req = refused (record req { ended = some (finalized status) })

unfoldable pub close : ℕ → Req → Outcome
close status req = refused (record req { ended = some (closed status) })

-- `pgrest_http_header_handler_pt`
abbrev pub Handler : Type 0
Handler = Req → Param → Outcome

-- The handler of a token, if it has one.
unfoldable pub call_handler : Option (Token Handler) → Req → Param → Outcome
call_handler none req header = passed req
call_handler (some t) req header = elim t.handler [ none ↦ passed req | some f ↦ f req header ]

abbrev pub token_at : List (Token Handler) → Option ℕ → Option (Token Handler)
token_at tokens none = none
token_at tokens (some k) = get_elem? tokens k

module _ (grant : ℕ → Bool) (junk : Param) where
  -- The copy of the header in the cell that was pushed.
  unfoldable pub put_header : Option ℕ × Array Param → Param → Option (Array Param)
  put_header (none, headers) header = none
  put_header (some elem, headers) header = some (write headers elem header)

  -- `pgrest_http_header_add`
  unfoldable pub header_add : Array Param → Param → Option (Array Param)
  unfolding put_header
  header_add headers header = put_header (push grant junk headers) header

  module _ (tokens : List (Token Handler)) where
    -- One round of the loop, for a header whose key is in lower case.
    unfoldable pub init_header : Param → Req → Outcome
    unfolding header_add call_handler close find_token
    init_header header req = elim (header_add req.headers header) [
      | none ↦ close 500 req
      | some headers ↦
          call_handler (token_at tokens (find_token header.key)) (record req { headers = headers })
            header
    ]

    -- The loop of `pgrest_http_init_headers`.
    unfoldable pub init_loop : List Param → Req → Outcome
    unfolding init_header next
    init_loop [] req = passed req
    init_loop (header ∷ headers) req =
        next (init_header (record header { key = strtolower header.key }) req) (init_loop headers)

    -- `pgrest_http_init_headers`
    unfoldable pub init_headers : List Param → Req → Outcome
    unfolding init_loop close
    init_headers headers req = elim (init grant junk 10 32) [
      | none ↦ close 500 req
      | some array ↦ init_loop headers (record req { headers = array })
    ]

-- `pgrest_http_set_virtual_server`
abbrev pub set_virtual_server : Bytes → Bool
set_virtual_server host = true

unfoldable pub check_host : Req → Outcome
unfolding finalize
check_host req =
    if (length req.server == 0) && not (set_virtual_server req.server)
    then refused req
    else elim req.host [
      | none ↦ if ltb version_10 req.http_version then finalize 400 req else passed req
      | some host ↦ passed req
    ]

unfoldable pub check_length : Req → Outcome
unfolding finalize
check_length req = elim req.content_length [
  | none ↦ passed req
  | some header ↦ elim (atoof header.value) [
    | none ↦ finalize 400 (record req { content_length_n = negsuc 0 })
    | some n ↦ passed (record req { content_length_n = pos n })
  ]
]

unfoldable pub check_method : Req → Outcome
unfolding finalize
check_method req = if req.method == method_trace then finalize 405 req else passed req

-- `value.len == n && strncasecmp(value.base, name, n) == 0`
unfoldable pub same_word : Bytes → Bytes → Bool
same_word value name = (length value == length name) && same_bytes (strtolower value) name

unfoldable pub check_transfer : Req → Outcome
unfolding finalize same_word
check_transfer req = elim req.transfer_encoding [
  | none ↦ passed req
  | some header ↦
      if same_word header.value (bytes "chunked")
      then passed
          (record req { content_length = none; content_length_n = negsuc 0; chunked = true })
      else if same_word header.value (bytes "identity")
      then passed req
      else finalize 501 req
]

abbrev pub time_of : Option ℕ → ℤ
time_of none = negsuc 0
time_of (some n) = pos n

unfoldable pub check_keep_alive : Req → Outcome
check_keep_alive req =
    if req.connection_type == connection_keep_alive
    then elim req.keep_alive [
      | none ↦ passed req
      | some header ↦ passed (record req { keep_alive_n = time_of (atotm header.value) })
    ]
    else passed req

-- What follows `pgrest_http_init_headers` in `pgrest_http_process_header`.
unfoldable pub check_headers : Req → Outcome
unfolding next check_host check_length check_method check_transfer check_keep_alive
check_headers req = next (check_host req) (λ req. next (check_length req) (λ req.
    next (check_method req) (λ req. next (check_transfer req) (λ req. check_keep_alive req))))

-- `pgrest_http_process_header`
unfoldable pub process_header :
    (ℕ → Bool) → Param → List (Token Handler) → List Param → Req → Outcome
unfolding next init_headers check_headers
process_header grant junk tokens headers req =
    next (init_headers grant junk tokens headers req) check_headers

-- The length of the interim response.
abbrev pub continue_length : ℕ
continue_length = 25

-- `pgrest_http_test_expect`, with what `pgrest_conn_send` returned, and whether it was called.
unfoldable pub test_expect : ℕ → Req → Outcome × Bool
unfolding same_word close
test_expect sent req =
    if req.expect_tested || ltb req.http_version (version_10 + 1)
    then (passed req, false)
    else elim req.expect [
      | none ↦ (passed req, false)
      | some header ↦
          let tested = record req { expect_tested = true } in
          if same_word header.value (bytes "100-continue")
          then if sent == continue_length then (passed tested, true) else (close 500 tested, true)
          else (passed tested, false)
    ]
