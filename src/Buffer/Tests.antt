-- ===== src/Buffer/Tests.antt =====
-- Runs of the buffers of src/pg_rest_memory.c.
use pg_rest.Base.{true, ◌≡◌, refl, [], ◌∷◌, List, some, none, arith, drop, replicate}
use pg_rest.Buffer.{
  Buffer, Os, reserved, buffer_reserve, reserve_grown, double_until, consume, update_sent,
  buffer_extend,
}
use pg_rest.Buffer.Contents.{IsValid, contents, consume-contents}
use pg_rest.Buffer.Sent.{Sent, update_sent-stream}
use pg_rest.Buffer.Extend.{Short, buffer_extend-Short}

abbrev system : Os
system = record {
  grant = λ n. true;
  junk = 0;
  pagesize = 4096;
  mkstemp = none;
  posix_fallocate = λ fd n. true;
  mmap = λ fd n. true;
}

abbrev small : Buffer
small = record { capacity = 4; size = 2; pos = 1; fd = none; start = 1 ∷ 2 ∷ 3 ∷ 4 ∷ [] }

small-IsValid : IsValid small
small-IsValid = record { inside = omega arith; block = refl; in_range = omega arith }

abbrev chain : List Buffer
chain = small ∷ small ∷ []

reserve_run :
    buffer_reserve system small 4
    ≡ reserved
        (record {
          capacity = 8;
          size = 2;
          pos = 0;
          fd = none;
          start = 2 ∷ 3 ∷ 0 ∷ 0 ∷ 0 ∷ 0 ∷ 0 ∷ 0 ∷ [];
        })
        (record { base = some 2; len = 6 })
unfolding buffer_reserve reserve_grown double_until
reserve_run = refl

consume_run : contents (consume small 1) ≡ 3 ∷ []
unfolding consume
consume_run = refl

consume-contents_example :
    IsValid (consume small 1) × (contents (consume small 1) ≡ drop 1 (contents small))
consume-contents_example = consume-contents small 1 small-IsValid (omega arith)

update_sent-stream_example : Sent chain 3 (update_sent chain 3)
update_sent-stream_example = update_sent-stream chain 3 (small-IsValid, (small-IsValid, tt))

abbrev block : Buffer
block = record { capacity = 28; size = 0; pos = 0; fd = none; start = replicate 28 0 }

block-IsValid : IsValid block
block-IsValid = record { inside = omega arith; block = refl; in_range = omega arith }

buffer_extend-Short_example : Short block (buffer_extend system block)
buffer_extend-Short_example =
    buffer_extend-Short system block block-IsValid (omega arith) (omega arith)
