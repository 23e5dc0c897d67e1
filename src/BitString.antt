-- ===== src/BitString.antt =====
-- include/everett/profile.h: bit strings and their comparison, and the codes of counts in them. A
-- bit string is the list of its bits, the most significant first; the packing into bytes, and the
-- offset of a view in its first byte, are not modelled.
pub mod Fields
pub mod Codewords
pub mod Writing
pub mod Prefixes
pub mod Plain
pub mod Agreement
pub mod Runs
pub mod Zeros
pub mod Reading
pub mod Counts
pub mod Golomb
pub mod RoundTrip
pub mod Compare
pub mod Order
pub mod Agreed
pub mod Comparing
pub mod CommonBytes
pub mod Packed
pub mod PackedWords
pub mod PackedLoads
mod Examples
use Prim.Native.Nat.{Ordering, compare}
use everett.Base.{
  ℕ, zero, suc, ◌+◌, ◌-◌, ◌*◌, ◌/◌, ◌%◌, ◌^◌, min, Bool, true, false, not, ◌&&◌, ◌||◌, List, [],
  ◌∷◌, ◌++◌, if◌then◌else◌, ltb, leb, ◌==◌, sub64, length, take, drop, Result, raise, ok, ◌>>=◌,
  require, invalid_argument, out_of_range, length_error, overflow_error,
}
use everett.Width.{bit_width}

abbrev pub Bits : Type 0
Bits = List Bool

-- `std::numeric_limits<std::uint64_t>::max()`
abbrev pub max_u64 : ℕ
max_u64 = 2 ^ 64 - 1

unfoldable pub add : (a b : ℕ) → Result ℕ
add a b = require (not (ltb (max_u64 - a) b)) overflow_error (ok (a + b))

unfoldable pub multiply : (a b : ℕ) → Result ℕ
multiply a b = require (not (not (b == 0) && ltb (max_u64 / b) a)) overflow_error (ok (a * b))

unfoldable pub subview : Bits → (first count : ℕ) → Result Bits
subview bits first count =
    require (not (ltb (length bits) first || ltb (length bits - first) count)) out_of_range
      (ok (take count (drop first bits)))

-- The number that bits spell, and the last bits of a number.
unfoldable pub bits_value : Bits → ℕ
bits_value [] = 0
bits_value (b ∷ bits) = (if b then 2 ^ length bits else 0) + bits_value bits

unfoldable pub field : (width value : ℕ) → Bits
field zero value = []
field (suc w) value = (value / 2 ^ w % 2 == 1) ∷ field w value

unfoldable pub load_bits : Bits → (first width : ℕ) → ℕ
load_bits bits first width = bits_value (take width (drop first bits))

-- `store_bits` and `copy_bits`, within the target.
unfoldable pub store : (target : Bits) (at : ℕ) (source : Bits) → Bits
store [] at source = []
store (x ∷ target) (suc at) source = x ∷ store target at source
store (x ∷ target) zero [] = x ∷ target
store (x ∷ target) zero (b ∷ source) = b ∷ store target zero source

-- A string of the length, with zeros for what is fresh.
unfoldable pub pad : ℕ → Bits → Bits
pad zero bits = []
pad (suc n) [] = false ∷ pad n []
pad (suc n) (b ∷ bits) = b ∷ pad n bits

unfoldable pub resize : Bits → ℕ → Result Bits
resize value bits = require (not (ltb (max_u64 - 7) bits)) length_error (ok (pad bits value))

unfoldable pub copy_into : (target : Bits) (first : ℕ) (source : Bits) → Result Bits
copy_into target first source =
    require (not (ltb (length target) first || ltb (length target - first) (length source)))
      out_of_range (ok (store target first source))

unfoldable pub append : (target source : Bits) → Result Bits
append target source = add (length target) (length source) >>= λ n.
    resize target n >>= λ t. copy_into t (length target) source

-- The target, and the position behind the field.
unfoldable pub put_fixed : (target : Bits) (at value width : ℕ) → Result (Bits × ℕ)
put_fixed target at value width =
    require (not (ltb 64 width || ltb (length target) at || ltb (length target - at) width))
      out_of_range (ok (store target at (field width value), at + width))

-- `Code`, a template argument: an order of at most 63, or a modulus that is not zero.
pub data BackspaceCode : Type 0 where
  exponential_golomb : (order : ℕ) → BackspaceCode
  golomb : (modulus : ℕ) → BackspaceCode

unfoldable pub golomb_cutoff : ℕ → ℕ
golomb_cutoff modulus =
    let width = bit_width (modulus - 1) in
    if width == 64 then sub64 0 modulus else 2 ^ width - modulus

unfoldable pub backspace_bits : BackspaceCode → ℕ → Result ℕ
backspace_bits (exponential_golomb order) value =
    let quotient = value / 2 ^ order in
    ok ((if quotient == max_u64 then 129 else 2 * bit_width (quotient + 1) - 1) + order)
backspace_bits (golomb modulus) value =
    let width = bit_width (modulus - 1) in
    let remainder_width =
      width - (if ltb (value % modulus) (golomb_cutoff modulus) then 1 else 0) in
    add (value / modulus) 1 >>= λ n. add n remainder_width

-- The fields of a code, at a position, in a target that has room.
unfoldable pub put_quotient : (target : Bits) (at quotient : ℕ) → Result (Bits × ℕ)
put_quotient target at quotient =
    let width = bit_width (quotient + 1) in
    if quotient == max_u64
    then (put_fixed target (at + 64) 1 1 >>= λ (t, a). put_fixed t a 0 64)
    else put_fixed target (at + (width - 1)) (quotient + 1) width

unfoldable pub put_remainder : (target : Bits) (at modulus remainder : ℕ) → Result (Bits × ℕ)
put_remainder target at modulus remainder =
    let width = bit_width (modulus - 1) in
    let cutoff = golomb_cutoff modulus in
    if ltb remainder cutoff
    then put_fixed target at remainder (width - 1)
    else put_fixed target at (remainder + cutoff) width

unfoldable pub put_code : BackspaceCode → (target : Bits) (at value : ℕ) → Result Bits
put_code (exponential_golomb order) target at value =
    put_quotient target at (value / 2 ^ order) >>= λ (t, a).
    put_fixed t a value order >>= λ (t, _). ok t
put_code (golomb modulus) target at value =
    put_fixed target (at + value / modulus) 1 1 >>= λ (t, a).
    put_remainder t a modulus (value % modulus) >>= λ (t, _). ok t

unfoldable pub write_backspace : BackspaceCode → (target : Bits) (value : ℕ) → Result Bits
write_backspace code target value = backspace_bits code value >>= λ n.
    add (length target) n >>= λ size.
    resize target size >>= λ t. put_code code t (length target) value

-- The reads of profile.h go by an offset, and give the value with the offset behind it.
unfoldable pub read_fixed : Bits → (at width : ℕ) → Result (ℕ × ℕ)
read_fixed bits at width =
    require (not (ltb 64 width || ltb (length bits) at || ltb (length bits - at) width))
      invalid_argument (ok (load_bits bits at width, at + width))

-- `std::countl_zero(word) - (64 - width)` of a window.
unfoldable pub leading_zeros : Bits → ℕ
leading_zeros [] = 0
leading_zeros (true ∷ bits) = 0
leading_zeros (false ∷ bits) = suc (leading_zeros bits)

-- Each round but the last takes a window off, and there is one at least for each.
unfoldable pub zero_run : (fuel : ℕ) → Bits → (at limit zeros : ℕ) → Result (ℕ × ℕ)
zero_run zero bits at limit seen = raise invalid_argument
zero_run (suc fuel) bits at limit seen =
    let width = min (length bits - at) 64 in
    let leading = leading_zeros (take width (drop at bits)) in
    let rest = zero_run fuel bits (at + leading) limit (seen + leading) in
    if leb (length bits) at
    then raise invalid_argument
    else if ltb (limit - seen) leading
    then raise invalid_argument
    else if leading == width
    then rest
    else ok (seen + leading, at + leading + 1)

unfoldable pub read_zero_run : Bits → (at limit : ℕ) → Result (ℕ × ℕ)
read_zero_run bits at limit = zero_run (suc (length bits)) bits at limit 0

-- A code of more than 15 bits, or near the end.
unfoldable pub read_count_slow : Bits → ℕ → Result (ℕ × ℕ)
read_count_slow bits offset = read_zero_run bits offset 64 >>= λ (zeros, at).
    require (not (ltb (length bits - at) zeros)) invalid_argument (
      read_fixed bits at zeros >>= λ (suffix, end).
      if zeros == 64
      then require (suffix == 0) invalid_argument (ok (max_u64, end))
      else ok (2 ^ zeros - 1 + suffix, end))

-- `read_count` where the unit is a bit.
unfoldable pub read_count : Bits → ℕ → Result (ℕ × ℕ)
read_count bits offset =
    let word = load_bits bits offset 16 in
    let zeros = leading_zeros (take 16 (drop offset bits)) in
    if leb offset (length bits) && leb 16 (length bits - offset) && ltb zeros 8
    then ok (word / 2 ^ (15 - 2 * zeros) - 1, offset + (2 * zeros + 1))
    else read_count_slow bits offset

unfoldable pub read_backspace : BackspaceCode → Bits → ℕ → Result (ℕ × ℕ)
read_backspace (exponential_golomb order) bits offset = read_count bits offset >>= λ (quotient, at).
    require (not (ltb (max_u64 / 2 ^ order) quotient)) invalid_argument
      (read_fixed bits at order >>= λ (remainder, end). ok (quotient * 2 ^ order + remainder, end))
read_backspace (golomb modulus) bits offset =
    let width = bit_width (modulus - 1) in
    let cutoff = golomb_cutoff modulus in
    read_zero_run bits offset (max_u64 / modulus) >>= λ (quotient, at).
    (if width == 0
      then ok (0, at)
      else (read_fixed bits at (width - 1) >>= λ (high, a).
          if ltb high cutoff
          then ok (high, a)
          else (read_fixed bits a 1 >>= λ (low, end). ok (high * 2 + low - cutoff, end))))
    >>= λ (remainder, end).
        require (not (ltb (max_u64 - quotient * modulus) remainder)) invalid_argument
          (ok (quotient * modulus + remainder, end))
