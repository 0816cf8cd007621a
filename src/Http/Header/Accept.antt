-- ===== src/Http/Header/Accept.antt =====
-- Which headers `pgrest_http_process_header` of src/pg_rest_http_v1.c accepts, once they are stored.
