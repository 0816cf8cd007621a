-- ===== src/Buffer.antt =====
-- The buffers of include/pg_rest_memory.h and src/pg_rest_memory.c. `start` is the array of bytes
-- at the end of the struct, `pos` an offset into it, and a `fd` of -1 is `none`. The calls of the
-- operating system are parameters.
pub mod Contents
pub mod Doubling
pub mod Reserve
pub mod Sent
pub mod Extend
mod Tests
use pg_rest.Base.{
  ℕ, zero, suc, ◌+◌, ◌-◌, ◌*◌, ◌/◌, ◌%◌, ◌^◌, Bool, true, false, ◌&&◌, Option, none, some, List, [],
  ◌∷◌, ◌++◌, leb, ltb, ◌==◌, if◌then◌else◌, length, take, drop, replicate,
}
use pg_rest.Text.{Bytes}
use pg_rest.Array.{max_alloc, size_mod}

-- `PGREST_BUFFER_LIMIT_SIZE`
abbrev pub buffer_limit_size : ℕ
buffer_limit_size = 1048576

-- `offsetof(pgrest_buffer_t, start)`
abbrev pub start_offset : ℕ
start_offset = 28

-- `struct pgrest_buffer_s`
pub record Buffer : Type 0 where
  pub capacity : ℕ
  pub size : ℕ
  pub pos : ℕ
  pub fd : Option ℕ
  pub start : Bytes

-- `pgrest_iovec_t`: the offset in the buffer, and NULL is `none`.
pub record Iovec : Type 0 where
  pub base : Option ℕ
  pub len : ℕ

-- `pgrest_buffer_free_size`
unfoldable pub free_size : Buffer → ℕ
free_size buf = (buf.capacity + (size_mod - buf.size) + (size_mod - buf.pos)) % size_mod

-- `pgrest_buffer_reset`
unfoldable pub reset : Buffer → Buffer
reset buf = record buf { size = 0; pos = 0 }

-- `pgrest_buffer_consume`
unfoldable pub consume : Buffer → ℕ → Buffer
unfolding reset
consume buf size =
    if buf.size == size
    then reset buf
    else record buf { size = (buf.size + (size_mod - size)) % size_mod; pos = buf.pos + size }

-- `pgrest_chain_update_sent`: the buffers that it leaves behind, and the chain that it returns.
unfoldable pub update_sent : List Buffer → ℕ → List Buffer × List Buffer
update_sent [] sent = ([], [])
update_sent (buf ∷ chain) sent =
    let rest = update_sent chain (sent - buf.size) in
    if sent == 0
    then ([], buf ∷ chain)
    else if leb buf.size sent
    then (record buf { pos = 0; size = 0 } ∷ rest.0, rest.1)
    else ([], record buf { pos = buf.pos + sent; size = buf.size - sent } ∷ chain)

-- What the calls of the operating system and of the memory context answer.
pub record Os : Type 0 where
  pub grant : ℕ → Bool
  pub junk : ℕ
  pub pagesize : ℕ
  pub mkstemp : Option ℕ
  pub posix_fallocate : ℕ → ℕ → Bool
  pub mmap : ℕ → ℕ → Bool

module _ (os : Os) where
  -- `pgrest_mpool_alloc` of a buffer of `capacity` bytes
  unfoldable pub alloc : ℕ → Option Bytes
  alloc capacity =
      let bytes = (start_offset + capacity) % size_mod in
      if leb bytes max_alloc
      then if os.grant bytes then some (replicate capacity os.junk) else none
      else none

  -- `pgrest_buffer_create`
  unfoldable pub buffer_create : ℕ → Option Buffer
  unfolding alloc
  buffer_create size = elim (alloc size) [
    | none ↦ none
    | some start ↦ some (record { capacity = size; size = 0; pos = 0; fd = none; start = start })
  ]

  -- `topagesize`
  unfoldable pub topagesize : ℕ → ℕ
  topagesize capacity =
      ((start_offset + capacity + os.pagesize + size_mod - 1) % size_mod)
      / os.pagesize
      * os.pagesize
      % size_mod

-- The loop that doubles the capacity, and `none` where its rounds run out.
unfoldable pub double_until : ℕ → ℕ → ℕ → ℕ → Option ℕ
double_until zero capacity used size = none
double_until (suc fuel) capacity used size =
    let next = capacity * 2 % size_mod in
    let rest = double_until fuel next used size in
    if ltb ((next + (size_mod - used)) % size_mod) size then rest else some next

-- How `pgrest_buffer_reserve` ends: it returns an `iovec`, its loop does not end, or it writes to
-- the NULL that the memory context gave.
pub data Reserved : Type 0 where
  reserved : Buffer → Iovec → Reserved
  looping : Reserved
  null_write : Reserved

-- At the label `done`.
unfoldable pub reserve_done : Buffer → Reserved
reserve_done buf =
    reserved buf
      (record { base = some (buf.pos + buf.size); len = buf.capacity - (buf.pos + buf.size) })

-- At the label `fail`.
unfoldable pub reserve_fail : Buffer → Reserved
reserve_fail buf = reserved buf (record { base = none; len = 0 })

-- At the label `copy`, with the new block and its file.
unfoldable pub reserve_copy : Buffer → ℕ → Option ℕ → Option Bytes → Reserved
unfolding reserve_done
reserve_copy buf capacity fd none = null_write
reserve_copy buf capacity fd (some start) = reserve_done (record {
  capacity = capacity;
  size = buf.size;
  pos = 0;
  fd = fd;
  start = take buf.size (drop buf.pos buf.start) ++ drop buf.size start;
})

-- After `mmap`: a new mapping takes a copy, and a file that the buffer had already shows the bytes
-- it held, with zeros behind them.
unfoldable pub reserve_remapped : Buffer → ℕ → ℕ → Option ℕ → Reserved
reserve_remapped buf capacity fd none =
    reserve_copy buf capacity (some fd) (some (replicate capacity 0))
reserve_remapped buf capacity fd (some _) =
    reserve_done (record buf {
      capacity = capacity;
      start = buf.start ++ replicate (capacity - buf.capacity) 0;
    })

module _ (os : Os) where
  -- The file that the buffer has, or a new one.
  unfoldable pub temp_file : Option ℕ → Option ℕ
  temp_file none = os.mkstemp
  temp_file (some fd) = some fd

  -- The buffer in a mapped file: a new file for a buffer on the heap, or the file that the buffer
  -- has, mapped again at its new size. A fresh file holds zeros.
  unfoldable pub reserve_mapped : Buffer → ℕ → Reserved
  unfolding topagesize temp_file reserve_remapped reserve_fail
  reserve_mapped buf capacity = elim (temp_file buf.fd) [
    | none ↦ reserve_fail buf
    | some fd ↦
        if os.posix_fallocate fd (topagesize os capacity)
        then if os.mmap fd (topagesize os capacity)
          then reserve_remapped buf capacity fd buf.fd
          else reserve_fail buf
        else reserve_fail buf
  ]

  -- The new block at the capacity that the loop found.
  unfoldable pub reserve_grown : Buffer → Option ℕ → Reserved
  unfolding alloc reserve_copy reserve_mapped
  reserve_grown buf none = looping
  reserve_grown buf (some capacity) =
      if leb capacity buffer_limit_size
      then reserve_copy buf capacity none (alloc os capacity)
      else reserve_mapped buf capacity

  -- Sixty-four rounds of the loop shift every bit of the capacity out.
  unfoldable pub reserve_larger : Buffer → ℕ → Reserved
  reserve_larger buf size = reserve_grown buf (double_until 64 buf.capacity buf.size size)

  -- `pgrest_buffer_reserve`
  unfoldable pub buffer_reserve : Buffer → ℕ → Reserved
  unfolding free_size reserve_done reserve_larger
  buffer_reserve buf size =
      if leb size (free_size buf)
      then reserve_done buf
      else if leb ((buf.size + size) * 2 % size_mod) buf.capacity
      then reserve_done (record buf {
        pos = 0;
        start = take buf.size (drop buf.pos buf.start) ++ drop buf.size buf.start;
      })
      else reserve_larger buf size

  -- `pgrest_buffer_extend`: the new block has `capacity * 2` bytes, with those of the header.
  unfoldable pub buffer_extend : Buffer → Option Buffer
  buffer_extend buf =
      let bytes = buf.capacity * 2 % size_mod in
      if leb bytes max_alloc && os.grant bytes
      then some (record buf {
        capacity = bytes;
        start = take (bytes - start_offset) (buf.start ++ replicate (bytes - start_offset) os.junk);
      })
      else none
