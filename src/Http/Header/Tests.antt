-- ===== src/Http/Header/Tests.antt =====
-- Runs of the processing of a header, of src/pg_rest_http_v1.c.
use pg_rest.Base.{true, false, ◌≡◌, refl, some, none, []}
use pg_rest.Base.Int.{negsuc}
use pg_rest.Text.{bytes, strtolower, tolower, atoof, atoof_from, is_digit}
use pg_rest.Inet.{same_bytes}
use pg_rest.Http.Header.{
  Param, Req, passed, next, check_host, check_length, check_method, check_transfer,
  check_keep_alive, check_headers, same_word,
}
use pg_rest.Http.Header.Unseen.{Unseen}

abbrev no_param : Param
no_param = record { key = []; value = [] }

abbrev new_req : Req
new_req = record {
  http_version = 257;
  method = 2;
  headers = record { elts = []; elt_size = 32; size = 0; capacity = 0 };
  host = none;
  content_length = none;
  transfer_encoding = none;
  keep_alive = none;
  expect = none;
  server = [];
  content_length_n = negsuc 0;
  keep_alive_n = negsuc 0;
  connection_type = 0;
  chunked = false;
  expect_tested = false;
  ended = none;
}

abbrev host_param : Param
host_param = record { key = bytes "Host"; value = bytes "localhost" }

abbrev chunked_req : Req
chunked_req = record new_req {
  host = some host_param;
  content_length = some (record { key = bytes "content-length"; value = bytes "12" });
  transfer_encoding = some (record { key = bytes "transfer-encoding"; value = bytes "Chunked" });
}

chunked_run :
    check_headers chunked_req
    ≡ passed (record chunked_req { content_length = none; chunked = true })
unfolding check_headers next check_host check_length check_method check_transfer check_keep_alive
    same_word same_bytes strtolower tolower atoof atoof_from is_digit
chunked_run = refl
