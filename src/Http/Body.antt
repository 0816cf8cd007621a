-- ===== src/Http/Body.antt =====
-- The parsers of a request's body in src/pg_rest_http_v1.c. The fields that they use of
-- `pgrest_http_request_t`, of its headers, body and server's settings are one record. An `off_t` is
-- an integer, and a pointer into the buffer is an offset into its block. The chunked decoder,
-- `phr_decode_chunked`, is a parameter.
pub mod Arrive
pub mod Once
pub mod Length
pub mod Chunked
pub mod Whole
mod Tests
use pg_rest.Base.{
  ℕ, zero, suc, ◌+◌, ◌-◌, ◌*◌, ◌%◌, ◌^◌, Bool, true, false, Option, none, some, List, [], ◌∷◌, ◌++◌,
  leb, ltb, ◌==◌, if◌then◌else◌, length, take, drop,
}
use pg_rest.Base.Int.{ℤ, pos, negsuc, ltb_ℤ}
use pg_rest.Text.{Bytes}
use pg_rest.Array.{size_mod}
use pg_rest.Buffer.{Buffer}

-- The statuses that the parsers finalize a request with.
abbrev pub bad_request : ℕ
bad_request = 400

abbrev pub entity_too_large : ℕ
entity_too_large = 413

abbrev pub internal_error : ℕ
internal_error = 500

-- `PGREST_OK`, `PGREST_ERROR` and `PGREST_AGAIN`
pub data Rc : Type 0 where
  ok error again : Rc

-- `chunked`, `content_length_n` of `headers_in`; `rest`, `split`, `decode_length`, `entity` and what
-- `chunked` points at, once it is not NULL, of `request_body`; `client_max_body_size` of the settings; and the status that the
-- request was finalized with.
pub record Request {ℓ} (Decoder : Type ℓ) : Type ℓ where
  pub chunked : Bool
  pub content_length_n : ℤ
  pub request_length : ℕ
  pub rest : ℤ
  pub split : Bool
  pub decoder : Decoder
  pub decode_length : ℕ
  pub entity_base : ℕ
  pub entity_len : ℕ
  pub max_body_size : ℕ
  pub finalized : Option ℕ

-- `(size_t)` of an `off_t`
unfoldable pub size_of : ℤ → ℕ
size_of (pos n) = n
size_of (negsuc n) = size_mod - suc n

-- `rb->rest == -1`
unfoldable pub is_unset : ℤ → Bool
is_unset (pos n) = false
is_unset (negsuc n) = n == 0

-- `buf->size - n` in `size_t`
unfoldable pub size_sub : ℕ → ℕ → ℕ
size_sub a b = (a + (size_mod - b)) % size_mod

-- What `phr_decode_chunked` makes of the bytes: an error, the data of an incomplete body, or the
-- data of a complete one and the bytes behind it.
pub data Decoded {ℓ} (Decoder : Type ℓ) : Type ℓ where
  malformed : Decoded Decoder
  partial : Decoder → Bytes → Decoded Decoder
  complete : Decoder → Bytes → Bytes → Decoded Decoder

-- The block with `bytes` written at an offset.
unfoldable pub write_at : Buffer → ℕ → Bytes → Bytes
write_at buf at bytes =
    take (buf.pos + at) buf.start ++ (bytes ++ drop (buf.pos + at + length bytes) buf.start)

module _ {ℓ} {Decoder : Type ℓ} where
  -- `pgrest_http_finalize_request` with a status, and PGREST_ERROR
  unfoldable pub fail : Request Decoder → Buffer → ℕ → Rc × Request Decoder × Buffer
  fail req buf status = (error, record req { finalized = some status }, buf)

  -- The bytes of the body that the buffer holds.
  unfoldable pub body_size : Request Decoder → Buffer → ℕ
  unfolding size_sub
  body_size req buf = if req.split then buf.size else size_sub buf.size req.request_length

  -- Where the body begins in the block.
  unfoldable pub body_base : Request Decoder → Buffer → ℕ
  body_base req buf = if req.split then buf.pos else buf.pos + req.request_length

  -- `pgrest_http_body_length`, with `size` bytes of the body in the buffer, `rest` bytes expected,
  -- and `len` for `(size_t) content_length_n`.
  unfoldable pub length_result :
      Request Decoder → Buffer → ℕ → ℤ → ℕ → Rc × Request Decoder × Buffer
  unfolding fail
  length_result req buf size rest len =
      if ltb req.max_body_size size
      then fail req buf entity_too_large
      else if ltb_ℤ (pos size) rest
      then (again, record req { rest = rest }, buf)
      else (
        ok,
        record req {
          rest = pos 0;
          entity_base = body_base req buf;
          entity_len = len;
          request_length = (req.request_length + len) % size_mod;
        },
        buf,
      )

  unfoldable pub body_length : Request Decoder → Buffer → Rc × Request Decoder × Buffer
  body_length req buf =
      length_result req buf (body_size req buf)
        (if is_unset req.rest then req.content_length_n else req.rest)
        (size_of req.content_length_n)

-- `calloc` says whether there is memory for the decoder, and `fresh` is a decoder of zeros with
-- `consume_trailer` set.
module _ {ℓ} {Decoder : Type ℓ} (calloc : Bool) (fresh : Decoder) where
  -- The first call sets the decoder up.
  unfoldable pub chunked_setup : Request Decoder → Option (Request Decoder)
  chunked_setup req =
      if is_unset req.rest
      then if calloc
        then some (record req {
          decoder = fresh;
          rest = pos 3;
          decode_length = if req.split then 0 else req.request_length;
          content_length_n = pos 0;
        })
        else none
      else some req

module _ {ℓ} {Decoder : Type ℓ} (decode : Decoder → Bytes → Decoded Decoder) where
  -- The limit as the code groups it: `split ? buf->size : (buf->size - request_length >= max)`.
  unfoldable pub over_limit : Request Decoder → Buffer → Bool
  unfolding size_sub
  over_limit req buf =
      if req.split
      then (if buf.size == 0 then false else true)
      else leb req.max_body_size (size_sub buf.size req.request_length)

  -- The new data in the buffer, and `decode_length` behind it.
  unfoldable pub chunked_store :
      Request Decoder → Buffer → Decoder → Bytes → Bytes → Request Decoder × Buffer
  unfolding write_at
  chunked_store req buf decoder out left = (
    record req { decoder = decoder; decode_length = req.decode_length + length out },
    record buf {
      size = req.decode_length + length out;
      start = write_at buf req.decode_length (out ++ left);
    },
  )

  -- A complete body: the bytes behind it are given back to the buffer.
  unfoldable pub chunked_finish : Request Decoder → Buffer → ℕ → Rc × Request Decoder × Buffer
  unfolding body_size body_base
  chunked_finish req buf left =
      let len = body_size req buf in
      (
        ok,
        record req {
          rest = pos 0;
          entity_base = body_base req buf;
          entity_len = len;
          content_length_n = pos len;
          request_length = (req.request_length + len) % size_mod;
        },
        record buf { size = buf.size + left },
      )

  -- What follows the call of the decoder.
  unfoldable pub chunked_result :
      Request Decoder → Buffer → Decoded Decoder → Rc × Request Decoder × Buffer
  unfolding fail over_limit chunked_store chunked_finish
  chunked_result req buf malformed = fail req buf bad_request
  chunked_result req buf (partial decoder out) =
      let r = chunked_store req buf decoder out [] in
      if over_limit r.0 r.1 then fail r.0 r.1 entity_too_large else (again, r.0, r.1)
  chunked_result req buf (complete decoder out left) =
      let r = chunked_store req buf decoder out left in
      if over_limit r.0 r.1
      then fail r.0 r.1 entity_too_large
      else chunked_finish r.0 r.1 (length left)

  -- With the decoder set up.
  unfoldable pub chunked_decode : Request Decoder → Buffer → Rc × Request Decoder × Buffer
  unfolding size_sub chunked_result fail
  chunked_decode req buf =
      let size = size_sub buf.size req.decode_length in
      if size == 0
      then (again, req, buf)
      else chunked_result req buf
          (decode req.decoder (take size (drop (buf.pos + req.decode_length) buf.start)))

module _ {ℓ} {Decoder : Type ℓ} (calloc : Bool) (fresh : Decoder)
    (decode : Decoder → Bytes → Decoded Decoder) where
  -- `pgrest_http_body_chunked`
  unfoldable pub body_chunked : Request Decoder → Buffer → Rc × Request Decoder × Buffer
  unfolding chunked_setup chunked_decode fail
  body_chunked req buf = elim (chunked_setup calloc fresh req) [
    | none ↦ fail req buf internal_error
    | some req ↦ chunked_decode decode req buf
  ]

  -- `pgrest_http_body_parser`
  unfoldable pub body_parser : Request Decoder → Buffer → Rc × Request Decoder × Buffer
  unfolding body_chunked body_length
  body_parser req buf = if req.chunked then body_chunked req buf else body_length req buf
