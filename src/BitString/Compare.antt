-- ===== src/BitString/Compare.antt =====
-- profile.h and key_detail.h on the scalar architecture: the comparison of bit strings by words. A
-- flag says whether both views start at a byte. The words of `common_bytes` are in the order of
-- memory, as on a big-endian host.
use Prim.Native.Nat.{Ordering, compare}
use everett.Base.{
  ℕ, zero, suc, ◌+◌, ◌-◌, ◌*◌, ◌/◌, min, Bool, not, ◌&&◌, [], ◌∷◌, if◌then◌else◌, ltb, leb, ◌==◌,
  length, take, drop,
}
use everett.BitString.{Bits, load_bits, leading_zeros}

-- The bits of `x ^ y`, of windows of one width.
unfoldable pub different : Bits → Bits → Bits
different [] ys = []
different (x ∷ xs) [] = []
different (x ∷ xs) (y ∷ ys) = (if x then not y else y) ∷ different xs ys

-- `std::countl_zero` of that, in the width.
unfoldable pub agreement : (a b : Bits) (at width : ℕ) → ℕ
unfolding different
agreement a b at width = leading_zeros (different (take width (drop at a)) (take width (drop at b)))

unfoldable pub bytes_loop : (fuel : ℕ) (a b : Bits) (at count : ℕ) → ℕ
bytes_loop zero a b at count = at
bytes_loop (suc fuel) a b at count =
    let next = bytes_loop fuel a b (at + 1) count in
    if not (at == count) && load_bits a (8 * at) 8 == load_bits b (8 * at) 8 then next else at

unfoldable pub words_loop : (fuel : ℕ) (a b : Bits) (at count : ℕ) → ℕ
words_loop zero a b at count = bytes_loop count a b at count
words_loop (suc fuel) a b at count =
    let next = words_loop fuel a b (at + 8) count in
    if leb 8 (count - at)
    then (if load_bits a (8 * at) 64 == load_bits b (8 * at) 64
        then next
        else at + agreement a b (8 * at) 64 / 8)
    else bytes_loop count a b at count

unfoldable pub common_bytes : (a b : Bits) (count : ℕ) → ℕ
common_bytes a b count = words_loop count a b 0 count

pub record BitComparison : Type 0 where
  pub common_bits : ℕ
  pub order : Ordering

-- `{at + …, x < y ? -1 : 1}`, of windows that differ.
unfoldable pub difference : (a b : Bits) (at width : ℕ) → BitComparison
difference a b at width = record {
  common_bits = at + agreement a b at width;
  order = if ltb (load_bits a at width) (load_bits b at width) then Ordering.lt else Ordering.gt;
}

unfoldable pub compare_loop : (fuel : ℕ) (a b : Bits) (at count : ℕ) → BitComparison
compare_loop zero a b at count = record {
  common_bits = count;
  order = compare (length a) (length b);
}
compare_loop (suc fuel) a b at count =
    let width = min (count - at) 64 in
    let next = compare_loop fuel a b (at + width) count in
    if at == count
    then record { common_bits = count; order = compare (length a) (length b) }
    else if load_bits a at width == load_bits b at width
    then next
    else difference a b at width

unfoldable pub compare_common_bits : (aligned : Bool) (a b : Bits) → BitComparison
compare_common_bits aligned a b =
    let count = min (length a) (length b) in
    let bytes = aligned && leb 8 count in
    let at = if bytes then 8 * common_bytes a b (count / 8) else 0 in
    if not (count == 0) && not (load_bits a 0 1 == load_bits b 0 1)
    then record {
      common_bits = 0;
      order = if load_bits a 0 1 == 1 then Ordering.gt else Ordering.lt;
    }
    else if bytes && leb 8 (count - at)
    then difference a b at 8
    else compare_loop (suc count) a b at count
