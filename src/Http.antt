-- ===== src/Http.antt =====
-- The HTTP/1 side: src/pg_rest_http_v1.c, src/pg_rest_http_header.c and
-- src/pg_rest_http_request.c.
pub mod Body
pub mod Token
pub mod Header
pub mod Request
