-- ===== src/SortCodec/KeyCodecs.antt =====
-- sort_codec.h: the codecs of keys, each with its order, its code after another key, and its ordered
-- code.
use Prim.Native.Nat.{Ordering}
use everett.Base.{ℕ, Bool, true, false, List, Option, ltb, Result, ok, ◌>>=◌}
use everett.BitString.Compare.{compare_common_bits}
use everett.BitString.{Bits, BackspaceCode}
use everett.SortCodec.Codecs.{
  string_bits, write_string, read_string, write_ordered_string, read_ordered_string,
  write_ordered_bits, read_ordered_bits,
}
use everett.SortCodec.FrontCoding.{write_fc_bits, read_fc_bits, write_fc_string, read_fc_string}
use everett.SortCodec.{SortBitReader, write_bits, read_bits}

pub record KeyCodec (A : Type 0) : Type 0 where
  pub less : A → A → Result Bool
  pub write : Bits → A → (previous : Option A) → Result Bits
  pub read : SortBitReader → (previous : Option A) → Result (A × SortBitReader)
  pub write_ordered : Bits → A → Result Bits
  pub read_ordered : SortBitReader → Result (A × SortBitReader)

-- `order < 0`
unfoldable pub is_less : Ordering → Bool
is_less Ordering.lt = true
is_less Ordering.eq = false
is_less Ordering.gt = false

-- Strings of bits or bytes start at a byte.
unfoldable pub less_bits : Bits → Bits → Bool
less_bits a b = is_less (compare_common_bits true a b).order

unfoldable pub less_string : List ℕ → List ℕ → Result Bool
less_string a b = string_bits a >>= λ x. string_bits b >>= λ y. ok (less_bits x y)

abbrev pub fc_string_key : BackspaceCode → KeyCodec (List ℕ)
fc_string_key code = record {
  less = less_string;
  write = write_fc_string code;
  read = read_fc_string code;
  write_ordered = write_ordered_string;
  read_ordered = read_ordered_string;
}

abbrev pub raw_string_key : BackspaceCode → KeyCodec (List ℕ)
raw_string_key code = record {
  less = less_string;
  write = λ out value _. write_string code out value;
  read = λ r _. read_string code r;
  write_ordered = write_ordered_string;
  read_ordered = read_ordered_string;
}

abbrev pub fc_bit_key : BackspaceCode → KeyCodec Bits
fc_bit_key code = record {
  less = λ a b. ok (less_bits a b);
  write = write_fc_bits code;
  read = read_fc_bits code;
  write_ordered = write_ordered_bits;
  read_ordered = read_ordered_bits;
}

abbrev pub unsigned_key : (bits : ℕ) → KeyCodec ℕ
unsigned_key bits = record {
  less = λ a b. ok (ltb a b);
  write = λ out value _. write_bits out value bits;
  read = λ r _. read_bits r bits;
  write_ordered = λ out value. write_bits out value bits;
  read_ordered = λ r. read_bits r bits;
}
