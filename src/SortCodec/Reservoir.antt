-- ===== src/SortCodec/Reservoir.antt =====
-- sort_codec.h: the reservoir holds the next bits of the view, so the reads of bits agree with reads
-- from the front of what is left.
use everett.Base.{
  ℕ, ◌+◌, ◌-◌, ◌%◌, min, ◌≤◌, ◌<◌, ◌≡◌, refl, sym, subst, ◌∙◌, ap, ap₂, inl, inr, [], Bool-cases,
  leb, ◌==◌, leb→le, length, take, drop, length-take, length-drop, drop-drop, drop-take, arith,
}
use everett.BitString.{Bits}
use everett.SortCodec.{SortBitReader, reader, remaining, cached, refill, consume, skip, filled}

-- A reader whose view has the bits left: the reservoir holds the first of them, and it ends at a
-- byte of the storage or with the view.
pub record Left (r : SortBitReader) (rest : Bits) : Type 0 where
  pub within : r.at ≤ length r.bits
  pub behind : rest ≡ drop r.at r.bits
  pub loaded : cached r ≤ length rest
  pub kept : r.reservoir ≡ take (cached r) rest
  pub aligned : 0 < cached r → cached r < length rest → (r.offset + r.at + cached r) % 8 ≡ 0

pub reader-Left : (bits : Bits) (offset : ℕ) → Left (reader bits offset) bits
unfolding reader
reader-Left bits offset = record {
  within = omega arith;
  behind = refl;
  loaded = omega arith;
  kept = refl;
  aligned = λ h _. absurd (omega (arith, h));
}

pub remaining-Left : (r : SortBitReader) (rest : Bits) → Left r rest → remaining r ≡ length rest
unfolding remaining
remaining-Left r rest l = omega (arith, ap length l.behind, length-drop r.at r.bits)

pub refill-Left :
    (r : SortBitReader) (rest : Bits)
    → Left r rest
    → Left (refill r) rest × (cached (refill r) ≡ min (length rest) (64 - (r.offset + r.at) % 8))
unfolding refill
refill-Left r rest l = (
  record {
    within = l.within;
    behind = l.behind;
    loaded = omega (arith, size);
    kept = same ∙ ap (λ n. take n rest) (sym size);
    aligned = λ some more. omega (arith, size, some, more);
  },
  size,
)
  where
    width : ℕ
    width = 64 - (r.offset + r.at) % 8

    same : take (min (remaining r) width) (drop r.at r.bits) ≡ take (min (length rest) width) rest
    same = ap₂ (λ n b. take (min n width) b) (remaining-Left r rest l) (sym l.behind)

    size : length (take (min (remaining r) width) (drop r.at r.bits)) ≡ min (length rest) width
    size = ap length same ∙ length-take (min (length rest) width) rest (omega arith)

-- What is in the reservoir can be taken off.
pub consume-Left :
    (r : SortBitReader) (rest : Bits) (n : ℕ)
    → Left r rest
    → n ≤ cached r
    → Left (consume r n) (drop n rest)
unfolding consume
consume-Left r rest n l h = record {
  within = omega (arith, l.within, l.loaded, h, ap length l.behind, length-drop r.at r.bits);
  behind = ap (drop n) l.behind ∙ drop-drop r.at n r.bits;
  loaded = omega (arith, fewer, l.loaded, length-drop n rest);
  kept =
      ap (drop n) l.kept
      ∙ (drop-take n (cached r) rest ∙ ap (λ k. take k (drop n rest)) (sym fewer));
  aligned = λ some more.
      subst (λ k. k % 8 ≡ 0) (omega (arith, fewer, h))
        (l.aligned (omega (arith, fewer, some))
          (omega (arith, fewer, more, length-drop n rest, h)));
}
  where
    fewer : length (drop n r.reservoir) ≡ cached r - n
    fewer = length-drop n r.reservoir

empty-Left :
    (r : SortBitReader) (rest : Bits) (n : ℕ)
    → Left r rest
    → n ≤ length rest
    → Left (record r { at = r.at + n; reservoir = [] }) (drop n rest)
empty-Left r rest n l h = record {
  within = omega (arith, l.within, h, ap length l.behind, length-drop r.at r.bits);
  behind = ap (drop n) l.behind ∙ drop-drop r.at n r.bits;
  loaded = omega arith;
  kept = refl;
  aligned = λ some more. absurd (omega (arith, some));
}

pub skip-Left :
    (r : SortBitReader) (rest : Bits) (n : ℕ)
    → Left r rest
    → n ≤ length rest
    → Left (skip r n) (drop n rest)
unfolding skip
skip-Left r rest n l h = elim (Bool-cases (leb n (cached r))) [
  | inl e ↦ rw (e) (consume-Left r rest n l (leb→le n (cached r) e))
  | inr e ↦ rw (e) (empty-Left r rest n l h)
]

-- A reader that is filled has a bit, if there is one.
pub filled-Left :
    (r : SortBitReader) (rest : Bits)
    → Left r rest
    → Left (filled r) rest × (0 < length rest → 0 < cached (filled r))
unfolding filled
filled-Left r rest l = elim (Bool-cases (cached r == 0)) [
  | inl e ↦ rw (e) ((refill-Left r rest l).0, λ some. omega (arith, some, (refill-Left r rest l).1))
  | inr n ↦ rw (n) (l, λ some. ground (arith, n))
]
