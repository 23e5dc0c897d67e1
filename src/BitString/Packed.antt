-- ===== src/BitString/Packed.antt =====
-- profile.h and key_detail.h: a field of packed bytes. Bytes are numbers below 256, and the offset
-- counts the bits before the field.
use everett.Base.{
  ℕ, ◌+◌, ◌-◌, ◌*◌, ◌/◌, ◌%◌, ◌^◌, List, [], ◌∷◌, if◌then◌else◌, leb, ◌==◌, take, drop,
}

-- `value << 8 | byte`, for each byte.
unfoldable pub big_endian : (value : ℕ) → List ℕ → ℕ
big_endian value [] = value
big_endian value (c ∷ bytes) = big_endian (value * 256 + c) bytes

-- The word of eight bytes, shifted, with what a ninth byte has for it.
unfoldable pub shifted_word : (source : List ℕ) (shift count : ℕ) → ℕ
shifted_word source shift count =
    let value = big_endian 0 (take 8 source) in
    if shift == 0
    then value
    else value * 2 ^ shift % 2 ^ 64
      + (if count == 9 then big_endian 0 (take 1 (drop 8 source)) / 2 ^ (8 - shift) else 0)

unfoldable pub load_packed : (bytes : List ℕ) (offset width : ℕ) → ℕ
load_packed bytes offset width =
    let source = drop (offset / 8) bytes in
    let shift = offset % 8 in
    let count = (shift + width + 7) / 8 in
    if width == 0
    then 0
    else if leb 8 count
    then (if width == 64
        then shifted_word source shift count
        else shifted_word source shift count / 2 ^ (64 - width))
    else big_endian 0 (take count source) / 2 ^ (count * 8 - shift - width) % 2 ^ width
