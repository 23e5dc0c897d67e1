-- ===== src/SortCodec.antt =====
-- include/everett/sort_codec.h: the bit streams of the codecs. A view is the list of its bits with
-- the offset of the first of them in its byte; the reservoir is the list of the valid bits at its
-- high end, whose number is `cached_`.
pub mod Reservoir
pub mod Fields
pub mod Counts
pub mod Codes
pub mod Codecs
pub mod Values
pub mod Optional
pub mod FrontCoding
pub mod Front
pub mod Keys
pub mod Ordered
pub mod KeyOrder
pub mod OrderedBits
pub mod KeyCodecs
pub mod KeyLaws
pub mod Records
pub mod Prefixed
pub mod SortPaths
pub mod RecordSteps
pub mod RecordParts
pub mod RecordReads
pub mod RecordStreams
mod Examples
mod RecordExamples
use everett.Base.{
  ℕ, zero, suc, ◌+◌, ◌-◌, ◌*◌, ◌/◌, ◌%◌, ◌^◌, min, Bool, true, false, not, ◌&&◌, ◌||◌, List, [],
  ◌∷◌, ◌++◌, if◌then◌else◌, ltb, leb, ◌==◌, length, take, drop, Result, raise, ok, ◌>>=◌, require,
  invalid_argument,
}
use everett.Width.{bit_width}
use everett.BitString.{
  Bits, max_u64, bits_value, field, add, resize, put_fixed, append, leading_zeros, BackspaceCode,
  exponential_golomb, golomb, golomb_cutoff, write_backspace,
}

-- The writer holds a reference to the string.
unfoldable pub write_bits : Bits → (value width : ℕ) → Result Bits
write_bits out value width =
    require (not (ltb 64 width || (ltb width 64 && not (value / 2 ^ width == 0)))) invalid_argument
      (add (length out) width >>= λ size.
        resize out size >>= λ t. put_fixed t (length out) value width >>= λ (t, _). ok t)

unfoldable pub write_count : BackspaceCode → Bits → (value : ℕ) → Result Bits
write_count code out value = write_backspace code out value

pub record SortBitReader : Type 0 where
  pub bits : Bits
  pub offset : ℕ
  pub at : ℕ
  pub reservoir : Bits

unfoldable pub reader : Bits → (offset : ℕ) → SortBitReader
reader bits offset = record { bits = bits; offset = offset; at = 0; reservoir = [] }

unfoldable pub remaining : SortBitReader → ℕ
remaining r = length r.bits - r.at

abbrev pub cached : SortBitReader → ℕ
cached r = length r.reservoir

unfoldable pub refill : SortBitReader → SortBitReader
refill r =
    let width = 64 - (r.offset + r.at) % 8 in
    record r { reservoir = take (min (remaining r) width) (drop r.at r.bits) }

unfoldable pub consume : SortBitReader → (count : ℕ) → SortBitReader
consume r count = record r { reservoir = drop count r.reservoir; at = r.at + count }

unfoldable pub skip : SortBitReader → (count : ℕ) → SortBitReader
skip r count =
    if leb count (cached r) then consume r count else record r { at = r.at + count; reservoir = [] }

-- `if (!cached_) refill();`
unfoldable pub filled : SortBitReader → SortBitReader
filled r = if cached r == 0 then refill r else r

unfoldable pub read_bits : SortBitReader → (width : ℕ) → Result (ℕ × SortBitReader)
read_bits r width = require (not (ltb 64 width || ltb (remaining r) width)) invalid_argument (
    let f = filled r in
    let g = refill (consume f (cached f)) in
    if width == 0
    then ok (0, r)
    else if leb width (cached f)
    then ok (bits_value (take width f.reservoir), consume f width)
    else ok (
      bits_value f.reservoir * 2 ^ (width - cached f)
          + bits_value (take (width - cached f) g.reservoir),
      consume g (width - cached f),
    ))

unfoldable pub take_bits : SortBitReader → (count : ℕ) → Result (Bits × SortBitReader)
take_bits r count =
    require (not (ltb (remaining r) count)) invalid_argument
      (ok (take count (drop r.at r.bits), skip r count))

unfoldable pub skip_bits : SortBitReader → (count : ℕ) → Result (Unit {0} × SortBitReader)
skip_bits r count = require (not (ltb (remaining r) count)) invalid_argument (ok (tt, skip r count))

-- Each round but the last takes bits off, and one is left at least for each.
unfoldable pub zero_run : (fuel : ℕ) → SortBitReader → (limit seen : ℕ) → Result (ℕ × SortBitReader)
zero_run zero r limit seen = raise invalid_argument
zero_run (suc fuel) r limit seen =
    let f = filled r in
    let leading = leading_zeros f.reservoir in
    let rest = zero_run fuel (consume f leading) limit (seen + leading) in
    if remaining r == 0
    then raise invalid_argument
    else if ltb (limit - seen) leading
    then raise invalid_argument
    else if leading == cached f
    then rest
    else ok (seen + leading, consume (consume f leading) 1)

unfoldable pub read_zero_run : SortBitReader → (limit : ℕ) → Result (ℕ × SortBitReader)
read_zero_run r limit = zero_run (suc (remaining r)) r limit 0

unfoldable pub read_exponential_slow : SortBitReader → Result (ℕ × SortBitReader)
read_exponential_slow r = read_zero_run r 64 >>= λ (run, s).
    require (not (ltb (remaining s) run)) invalid_argument (
      read_bits s run >>= λ (suffix, end).
      if run == 64
      then require (suffix == 0) invalid_argument (ok (max_u64, end))
      else ok (2 ^ run - 1 + suffix, end))

-- `std::countl_zero` of a reservoir without a one in its valid bits is 64, as the others are 0.
unfoldable pub countl_zero : Bits → ℕ
countl_zero reservoir =
    if leading_zeros reservoir == length reservoir then 64 else leading_zeros reservoir

unfoldable pub read_exponential : SortBitReader → Result (ℕ × SortBitReader)
read_exponential r =
    let f = if remaining r == 0 then r else filled r in
    let run = countl_zero f.reservoir in
    if ltb run 32 && leb (2 * run + 1) (cached f)
    then ok (bits_value (take (2 * run + 1) f.reservoir) - 1, consume f (2 * run + 1))
    else read_exponential_slow f

-- The remainder of a Golomb code.
unfoldable pub read_remainder : SortBitReader → (modulus : ℕ) → Result (ℕ × SortBitReader)
read_remainder r modulus =
    let width = bit_width (modulus - 1) in
    let cutoff = golomb_cutoff modulus in
    if width == 0
    then ok (0, r)
    else (read_bits r (width - 1) >>= λ (high, s).
        if ltb high cutoff
        then ok (high, s)
        else (read_bits s 1 >>= λ (low, end). ok (high * 2 + low - cutoff, end)))

unfoldable pub read_count : BackspaceCode → SortBitReader → Result (ℕ × SortBitReader)
read_count (exponential_golomb order) r = read_exponential r >>= λ (quotient, s).
    require (not (ltb (max_u64 / 2 ^ order) quotient)) invalid_argument
      (read_bits s order >>= λ (remainder, end). ok (quotient * 2 ^ order + remainder, end))
read_count (golomb modulus) r = read_zero_run r (max_u64 / modulus) >>= λ (quotient, s).
    read_remainder s modulus >>= λ (remainder, end).
    require (not (ltb (max_u64 - quotient * modulus) remainder)) invalid_argument
      (ok (quotient * modulus + remainder, end))
