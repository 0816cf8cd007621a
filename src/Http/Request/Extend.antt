-- ===== src/Http/Request/Extend.antt =====
-- `pgrest_http_extend_header_buffer` of src/pg_rest_http_request.c, which makes room for more of a
-- header. The buffer is that of the request and of its connection.
pub mod Room
use pg_rest.Base.{ℕ, ◌-◌, ◌/◌, Option, none, some, ltb, if◌then◌else◌}
use pg_rest.Buffer.{Buffer, Os, Reserved, Iovec, reserved, looping, null_write, buffer_reserve}

-- `ALLOCSET_BUFFER_MINSIZE`
abbrev pub buffer_minsize : ℕ
buffer_minsize = 4096

-- PGREST_OK with the buffer, PGREST_DECLINED, PGREST_ERROR, or a reservation that does not return.
pub data Extended : Type 0 where
  extended : Buffer → Extended
  declined : Extended
  failed : Extended
  endless : Extended
  null_written : Extended

-- The size that is asked for.
unfoldable pub extra_size : Buffer → ℕ
extra_size buf =
    if ltb (buf.capacity / 2) buf.size then buffer_minsize else buf.capacity / 2 - buf.size

-- What follows `pgrest_buffer_reserve`.
unfoldable pub extend_reserved : Reserved → Extended
extend_reserved (reserved buf v) = elim v.base [ none ↦ failed | some base ↦ extended buf ]
extend_reserved looping = endless
extend_reserved null_write = null_written

-- `pgrest_http_extend_header_buffer`, with `client_max_header_size`.
unfoldable pub extend_header_buffer : Os → ℕ → Buffer → Extended
unfolding extra_size extend_reserved
extend_header_buffer os max_size buf =
    if ltb max_size buf.size
    then declined
    else extend_reserved (buffer_reserve os buf (extra_size buf))
