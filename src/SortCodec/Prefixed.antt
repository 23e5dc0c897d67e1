-- ===== src/SortCodec/Prefixed.antt =====
-- sort_codec.h: the reader of a path takes what is retained before what is next in the stream, and is
-- led to the sort.
use native.Mathlib.Nat.{two-pow-succ}
use everett.Base.{
  ℕ, suc, ◌+◌, ◌*◌, ◌^◌, min, ◌<◌, ◌≡◌, refl, sym, subst, ◌∙◌, ap, inl, inr, Bool, true, false, [],
  ◌∷◌, ◌++◌, append_assoc, length-append, if◌then◌else◌, Bool-cases, ltb, ltb→lt, not_ltb→le,
  length, take, drop, drop-past, drop-drop, length-drop, ok, arith,
}
use everett.BitString.Fields.{Fits}
use everett.BitString.{Bits, bits_value, load_bits}
use everett.SortCodec.Reservoir.{Left}
use everett.SortCodec.OrderedBits.{read_bit-Decodes, bit_written}
use everett.SortCodec.Records.{PrefixReader, next_bit, prefix_loop}
use everett.SortCodec.{write_bits}

head_kept :
    (xs rest v : Bits) (b : Bool)
    → b ∷ v ≡ xs ++ rest
    → 0 < length xs
    → (take 1 xs ≡ b ∷ []) × (v ≡ drop 1 xs ++ rest)
head_kept [] rest v b e h = absurd (omega (arith, h))
head_kept (x ∷ xs) rest v b e h = (cc, cc)

bit_value_of : (b : Bool) → bits_value (b ∷ []) ≡ (if b then 1 else 0)
unfolding bits_value
bit_value_of true = refl
bit_value_of false = refl

-- The bits to come are those retained that were not taken and those left in the stream; with the path
-- so far they are the whole; and there is room for more of the path.
pub record PrefixLeft (kept whole : Bits) (p : PrefixReader) (room : ℕ) (v : Bits) : Type 0 where
  pub same : p.retained ≡ kept
  pub total : p.path ++ v ≡ whole
  pub short : Fits (length p.path + room)
  pub place : p.at ≡ min (length p.retained) (length p.path)
  pub rest : Bits
  pub ahead : v ≡ drop p.at p.retained ++ rest
  pub stream : Left p.input rest

module _ (kept whole : Bits) where
  bit_taken :
      (p : PrefixReader) (room : ℕ) (b : Bool) (v : Bits)
      → PrefixLeft kept whole p (1 + room) (b ∷ v)
      → (q : PrefixReader) × (next_bit p ≡ ok ((if b then 1 else 0), q))
        × (write_bits q.path (if b then 1 else 0) 1 ≡ ok (p.path ++ b ∷ []))
        × PrefixLeft kept whole (record q { path = p.path ++ b ∷ [] }) room v
  unfolding next_bit load_bits
  bit_taken p room b v l = elim (Bool-cases (ltb p.at (length p.retained))) [
    | inl e ↦
        let (first, after) =
          head_kept (drop p.at p.retained) l.rest v b l.ahead
            (omega (arith, ltb→lt p.at (length p.retained) e, length-drop p.at p.retained)) in
        (
          record p { at = p.at + 1 },
          rw (e, first, bit_value_of b) refl,
          bit_written b p.path (omega (arith, l.short)),
          record {
            same = l.same;
            total = append_assoc p.path (b ∷ []) v ∙ l.total;
            short = omega (arith, l.short, length-append p.path (b ∷ []));
            place =
                omega (
                  arith,
                  l.place,
                  ltb→lt p.at (length p.retained) e,
                  length-append p.path (b ∷ []),
                );
            rest = l.rest;
            ahead = after ∙ ap (λ xs. xs ++ l.rest) (drop-drop p.at 1 p.retained);
            stream = l.stream;
          },
        )
    | inr n ↦
        let past = drop-past p.at p.retained (not_ltb→le p.at (length p.retained) n) in
        let (s, es, ls) =
          read_bit-Decodes b p.input v
            (subst (Left p.input) (sym (l.ahead ∙ ap (λ xs. xs ++ l.rest) past)) l.stream) in
        (
          record p { input = s },
          rw (n, es) refl,
          bit_written b p.path (omega (arith, l.short)),
          record {
            same = l.same;
            total = append_assoc p.path (b ∷ []) v ∙ l.total;
            short = omega (arith, l.short, length-append p.path (b ∷ []));
            place = omega (
              arith,
              l.place,
              not_ltb→le p.at (length p.retained) n,
              length-append p.path (b ∷ []),
            );
            rest = v;
            ahead = sym (ap (λ xs. xs ++ v) past);
            stream = ls;
          },
        )
  ]

  pub loop_taken :
      (xs : Bits) (p : PrefixReader) (room value : ℕ) (v : Bits)
      → PrefixLeft kept whole p (length xs + room) (xs ++ v)
      → (q : PrefixReader) × (prefix_loop (length xs) p value
          ≡ ok (value * 2 ^ length xs + bits_value xs, q))
        × PrefixLeft kept whole q room v
  unfolding prefix_loop bits_value
  loop_taken [] p room value v l = (
    p,
    ap (λ n. ok (n, p)) (omega arith),
    subst (λ n. PrefixLeft kept whole p n v) (omega arith) l,
  )
  loop_taken (b ∷ xs) p room value v l =
      let (q, e, w, l') =
        bit_taken p (length xs + room) b (xs ++ v)
          (subst (λ n. PrefixLeft kept whole p n (b ∷ (xs ++ v))) (omega arith) l) in
      let (q', e', l'') =
        loop_taken xs (record q { path = p.path ++ b ∷ [] }) room (value * 2 + (if b then 1 else 0))
          v l' in
      (q', rw (e, w, e') (ap (λ n. ok (n, q')) (shifted b)), l'')
    where
      shifted :
          (b : Bool)
          → (value * 2 + (if b then 1 else 0)) * 2 ^ length xs + bits_value xs
            ≡ value * 2 ^ suc (length xs) + ((if b then 2 ^ length xs else 0) + bits_value xs)
      shifted true = grind (arith, two-pow-succ (length xs))
      shifted false = grind (arith, two-pow-succ (length xs))
