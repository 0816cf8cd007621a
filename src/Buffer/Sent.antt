-- ===== src/Buffer/Sent.antt =====
-- `pgrest_chain_update_sent` of src/pg_rest_memory.c against the stream of bytes that the chain holds.
use pg_rest.Base.{
  ℕ, true, false, zero, suc, ◌+◌, ◌-◌, ◌≤◌, ◌<◌, ◌≡◌, refl, ap, sym, ◌∙◌, List, [], ◌∷◌, ◌++◌,
  arith, leb, ◌==◌, inl, inr, Bool-cases, length, drop,
}
use pg_rest.Text.{Bytes}
use pg_rest.Buffer.{Buffer, update_sent}
use pg_rest.Buffer.Contents.{
  IsValid, contents, length-contents, drop_nil, drop-append_before, shifted-contents,
}

-- The bytes of the chain, in the order in which they are sent.
unfoldable pub stream : List Buffer → Bytes
stream [] = []
stream (buf ∷ chain) = contents buf ++ stream chain

abbrev pub AllValid : List Buffer → Type 0
AllValid [] = Unit {0}
AllValid (buf ∷ chain) = IsValid buf × AllValid chain

-- Each buffer that was left behind is empty.
abbrev pub AllEmpty : List Buffer → Type 0
AllEmpty [] = Unit {0}
AllEmpty (buf ∷ chain) = (buf.size ≡ 0) × AllEmpty chain

drop-append_after :
    (n : ℕ) (xs ys : Bytes) → length xs ≤ n → drop n (xs ++ ys) ≡ drop (n - length xs) ys
drop-append_after n [] ys le = ap (λ i. drop i ys) (omega arith)
drop-append_after zero (x ∷ xs) ys le = absurd (omega (arith, le))
drop-append_after (suc n) (x ∷ xs) ys le =
    drop-append_after n xs ys (omega arith) ∙ ap (λ i. drop i ys) next
  where
    next : n - length xs ≡ suc n - suc (length xs)
    next = omega arith

abbrev pub Sent : List Buffer → ℕ → List Buffer × List Buffer → Type 0
Sent chain sent r =
    (stream r.1 ≡ drop sent (stream chain))
    × AllEmpty r.0
    × (length r.0 + length r.1 ≡ length chain)
    × AllValid r.0
    × AllValid r.1

-- Of a chain of valid buffers whose bytes were sent up to `sent`, the chain that is returned holds
-- exactly the bytes that are still to send, the buffers left behind are empty, none is lost, and
-- all are still valid.
pub update_sent-stream :
    (chain : List Buffer) (sent : ℕ) → AllValid chain → Sent chain sent (update_sent chain sent)
unfolding update_sent stream
update_sent-stream [] sent valid = (sym (drop_nil sent), tt, refl, tt, tt)
update_sent-stream (buf ∷ chain) sent (v, vs) = elim (Bool-cases (sent == 0)) [
  | inl e ↦
      rw (e, update_sent)
        (
          ap (λ n. drop n (contents buf ++ stream chain)) (none_sent e),
          tt,
          omega arith,
          tt,
          (v, vs),
        )
  | inr e ↦ elim (Bool-cases (leb buf.size sent)) [
    | inl l ↦
        rw (e, l, update_sent) (after (update_sent-stream chain (sent - buf.size) vs) (leb_le l))
    | inr l ↦
        rw (e, l, update_sent)
          (
            ap (λ s. s ++ stream chain) (shifted-contents buf sent)
                ∙ sym (
                    drop-append_before sent (contents buf) (stream chain)
                      (omega (arith, length-contents buf v, lt_size l))),
            tt,
            omega arith,
            tt,
            (
              record {
                inside = omega (arith, v.inside, lt_size l);
                block = v.block;
                in_range = v.in_range;
              },
              vs,
            ),
          )
  ]
]
  where
    none_sent : (sent == 0) ≡ true → 0 ≡ sent
    none_sent e = ground arith

    leb_le : leb buf.size sent ≡ true → buf.size ≤ sent
    leb_le l = ground arith

    lt_size : leb buf.size sent ≡ false → sent < buf.size
    lt_size l = ground arith

    after :
        Sent chain (sent - buf.size) (update_sent chain (sent - buf.size))
        → buf.size ≤ sent
        → Sent (buf ∷ chain) sent (
          record buf { size = 0; pos = 0 } ∷ (update_sent chain (sent - buf.size)).0,
          (update_sent chain (sent - buf.size)).1,
        )
    after (s, e, n, a, b) le = (
      s
          ∙ ap (λ i. drop i (stream chain)) (omega (arith, length-contents buf v))
          ∙ sym (
              drop-append_after sent (contents buf) (stream chain)
                (omega (arith, length-contents buf v, le))),
      (refl, e),
      omega (arith, n),
      (record { inside = omega (arith, v.inside); block = v.block; in_range = v.in_range }, a),
      b,
    )
