-- ===== src/SortCodec/KeyLaws.antt =====
-- sort_codec.h: what a key codec promises, and that the codecs of the file keep it.
use Prim.Native.Nat.{Ordering, compare}
use everett.Base.{
  ℕ, ◌+◌, ◌^◌, ◌≤◌, ◌<◌, ◌≡◌, refl, sym, ◌∙◌, ap, true, List, [], ◌++◌, append-nil, Option, none,
  some, ltb, length, ok, arith,
}
use everett.BitString.Fields.{Fits}
use everett.BitString.Codewords.{IsCode}
use everett.BitString.Order.{lexical}
use everett.BitString.CommonBytes.{compare_common_bits-lexical}
use everett.BitString.{Bits, BackspaceCode, exponential_golomb, field}
use everett.SortCodec.Reservoir.{Left}
use everett.SortCodec.Codes.{Encodes, Decodes, write_bits-Encodes, read_bits-Decodes}
use everett.SortCodec.Codecs.{
  bytes_bits, write_ordered_string, read_ordered_string, write_ordered_bits, read_ordered_bits,
}
use everett.SortCodec.Values.{IsString, string_bits_lem, string_value-RoundTrips, string_code}
use everett.SortCodec.Front.{front_code, write_fc_bits-Encodes, read_fc_bits-Decodes}
use everett.SortCodec.Keys.{
  IsPrevious, previous_key, write_fc_string-Encodes, read_fc_string-Decodes,
}
use everett.SortCodec.Ordered.{
  string_key_code, write_ordered_string-Encodes, read_ordered_string-Decodes,
}
use everett.SortCodec.KeyOrder.{string_key_code-order, bytes_bits-order, field-order, chain}
use everett.SortCodec.OrderedBits.{
  bit_key_code, write_ordered_bits-Encodes, read_ordered_bits-Decodes, bit_key_code-order,
}
use everett.SortCodec.FrontCoding.{previous_bits}
use everett.SortCodec.KeyCodecs.{
  KeyCodec, is_less, less_bits, less_string, fc_string_key, raw_string_key, fc_bit_key,
  unsigned_key,
}
use everett.SortCodec.{SortBitReader}

-- A key after another one or after none.
abbrev pub PreviousTakes : {A : Type 0} → (A → Type 0) → Option A → Type 0
PreviousTakes Takes none = Unit {0}
PreviousTakes Takes (some a) = Takes a

-- Of the keys that it takes: where there is room, writing a key after another one appends its code, and
-- where that is next, reading after the same key returns the key and leaves what follows.
pub record KeyRoundTrips {A : Type 0} (codec : KeyCodec A) (Takes : A → Type 0)
    (code : A → Option A → Bits) : Type 0 where
  pub encodes :
      (a : A) (previous : Option A)
      → Takes a
      → PreviousTakes Takes previous
      → Encodes (λ out. codec.write out a previous) (code a previous)
  pub decodes :
      (a : A) (previous : Option A)
      → Takes a
      → PreviousTakes Takes previous
      → Decodes (λ r. codec.read r previous) (code a previous) a

-- The same of the ordered codes, which need no other key, and whose order is the order of the keys.
pub record KeyOrders {A : Type 0} (codec : KeyCodec A) (Takes : A → Type 0) (code : A → Bits)
    : Type 0 where
  pub encodes_ordered : (a : A) → Takes a → Encodes (λ out. codec.write_ordered out a) (code a)
  pub decodes_ordered : (a : A) → Takes a → Decodes codec.read_ordered (code a) a
  pub orders :
      (a b : A)
      → Takes a
      → Takes b
      → codec.less a b ≡ ok (is_less (lexical (code a) (code b)).order)

-- The promises of an ordered key, at two keys, one writer and one reader.
pub KeyOrders-at :
    {A : Type 0} (codec : KeyCodec A) (Takes : A → Type 0) (code : A → Bits)
    (t : KeyOrders codec Takes code) (a b : A) (out rest : Bits) (r : SortBitReader)
    → Takes a
    → Takes b
    → Fits (length out + length (code a))
    → Left r (code a ++ rest)
    → (codec.write_ordered out a ≡ ok (out ++ code a))
      × ((s : SortBitReader) × (codec.read_ordered r ≡ ok (a, s)) × Left s rest)
      × (codec.less a b ≡ ok (is_less (lexical (code a) (code b)).order))
KeyOrders-at codec Takes code t a b out rest r ta tb fits l =
    (t.encodes_ordered a ta out fits, t.decodes_ordered a ta r rest l, t.orders a b ta tb)

less_bits-lexical : (a b : Bits) → less_bits a b ≡ is_less (lexical a b).order
unfolding less_bits
less_bits-lexical a b = ap (λ k. is_less k.order) (compare_common_bits-lexical true a b)

string_orders :
    (a b : List ℕ)
    → IsString a
    → IsString b
    → less_string a b ≡ ok (is_less (lexical (string_key_code a) (string_key_code b)).order)
unfolding less_string
string_orders a b (ha, la) (hb, lb) =
    rw (string_bits_lem a la, string_bits_lem b lb)
      (ap ok (
        less_bits-lexical (bytes_bits a) (bytes_bits b)
        ∙ ap is_less (bytes_bits-order a b ha hb ∙ sym (string_key_code-order a b ha hb))))

module _ (c : BackspaceCode) where
  pub fc_string_key-KeyOrders : KeyOrders (fc_string_key c) IsString string_key_code
  fc_string_key-KeyOrders = record {
    encodes_ordered = λ a h. write_ordered_string-Encodes a h.0;
    decodes_ordered = λ a h. read_ordered_string-Decodes a h.0;
    orders = string_orders;
  }

  pub raw_string_key-KeyOrders : KeyOrders (raw_string_key c) IsString string_key_code
  raw_string_key-KeyOrders = record {
    encodes_ordered = λ a h. write_ordered_string-Encodes a h.0;
    decodes_ordered = λ a h. read_ordered_string-Decodes a h.0;
    orders = string_orders;
  }

  pub fc_bit_key-KeyOrders : KeyOrders (fc_bit_key c) (λ key. Fits (length key)) bit_key_code
  fc_bit_key-KeyOrders = record {
    encodes_ordered = λ a h. write_ordered_bits-Encodes a;
    decodes_ordered = λ a h. read_ordered_bits-Decodes a h;
    orders = λ a b ha hb. ap ok (less_bits-lexical a b ∙ ap is_less (sym (bit_key_code-order a b)));
  }

is_less-compare : (a b : ℕ) → ltb a b ≡ is_less (compare a b)
unfolding is_less
is_less-compare a b = ground arith

unsigned_order :
    (bits a b : ℕ)
    → a < 2 ^ bits
    → b < 2 ^ bits
    → (lexical (field bits a) (field bits b)).order ≡ compare a b
unfolding lexical
unsigned_order bits a b ha hb =
    ap (λ k. k.order)
      (ap (λ x. lexical x (field bits b)) (sym (append-nil (field bits a)))
        ∙ ap (lexical (field bits a ++ [])) (sym (append-nil (field bits b))))
    ∙ (field-order bits a b [] [] ha hb ∙ chain_end (compare a b))
  where
    chain_end : (o : Ordering) → chain o Ordering.eq ≡ o
    chain_end Ordering.lt = refl
    chain_end Ordering.eq = refl
    chain_end Ordering.gt = refl

pub unsigned_key-KeyOrders :
    (bits : ℕ) → bits ≤ 64 → KeyOrders (unsigned_key bits) (λ key. key < 2 ^ bits) (field bits)
unsigned_key-KeyOrders bits le = record {
  encodes_ordered = λ a h. write_bits-Encodes a bits le h;
  decodes_ordered = λ a h. read_bits-Decodes a bits le h;
  orders =
      λ a b ha hb. ap ok (is_less-compare a b ∙ ap is_less (sym (unsigned_order bits a b ha hb)));
}

module _ (c : BackspaceCode) (is_code : IsCode c) where
  pub fc_string_key-KeyRoundTrips :
      KeyRoundTrips
        (fc_string_key c)
        IsString
        (λ key previous. front_code c (bytes_bits key) (previous_key previous))
  fc_string_key-KeyRoundTrips = record {
    encodes = λ a previous h p.
        write_fc_string-Encodes c a previous is_code h (previous_takes previous p);
    decodes =
        λ a previous h p. read_fc_string-Decodes c a previous is_code h (previous_takes previous p);
  }
    where
      previous_takes :
          (previous : Option (List ℕ)) → PreviousTakes IsString previous → IsPrevious previous
      previous_takes none p = tt
      previous_takes (some old) p = p

  pub raw_string_key-KeyRoundTrips :
      KeyRoundTrips (raw_string_key c) IsString (λ key _. string_code c is_code key)
  raw_string_key-KeyRoundTrips = record {
    encodes = λ a _ h _. (string_value-RoundTrips c is_code).encodes a h;
    decodes = λ a _ h _. (string_value-RoundTrips c is_code).decodes a h;
  }

  pub fc_bit_key-KeyRoundTrips :
      KeyRoundTrips
        (fc_bit_key c)
        (λ key. Fits (length key))
        (λ key previous. front_code c key (previous_bits previous))
  unfolding previous_bits
  fc_bit_key-KeyRoundTrips = record {
    encodes =
        λ a previous h p. write_fc_bits-Encodes c a previous is_code h (previous-Fits previous p);
    decodes =
        λ a previous h p. read_fc_bits-Decodes c a previous is_code h (previous-Fits previous p);
  }
    where
      previous-Fits :
          (previous : Option Bits)
          → PreviousTakes (λ key. Fits (length key)) previous
          → Fits (length (previous_bits previous))
      previous-Fits none p = omega arith
      previous-Fits (some old) p = p

pub unsigned_key-KeyRoundTrips :
    (bits : ℕ)
    → bits ≤ 64
    → KeyRoundTrips (unsigned_key bits) (λ key. key < 2 ^ bits) (λ key _. field bits key)
unsigned_key-KeyRoundTrips bits le = record {
  encodes = λ a _ h _. write_bits-Encodes a bits le h;
  decodes = λ a _ h _. read_bits-Decodes a bits le h;
}

-- For strings of bytes, of fewer than 2 ^ 61 bytes each, where there is room for the ordered code of the
-- first one: it is appended; a reader with it next returns the string and leaves what follows; and a
-- string is less than another exactly if its code comes first, bit by bit.
pub less_string-write_ordered_string :
    (a b : List ℕ) (out rest : Bits) (r : SortBitReader)
    → IsString a
    → IsString b
    → Fits (length out + length (string_key_code a))
    → Left r (string_key_code a ++ rest)
    → (write_ordered_string out a ≡ ok (out ++ string_key_code a))
      × ((s : SortBitReader) × (read_ordered_string r ≡ ok (a, s)) × Left s rest)
      × (less_string a b ≡ ok (is_less (lexical (string_key_code a) (string_key_code b)).order))
less_string-write_ordered_string =
    KeyOrders-at (fc_string_key (exponential_golomb 0)) IsString string_key_code
      (fc_string_key-KeyOrders (exponential_golomb 0))

-- The same of bit strings whose length leaves room for the rounding to bytes.
pub less_bits-write_ordered_bits :
    (a b out rest : Bits) (r : SortBitReader)
    → Fits (length a)
    → Fits (length b)
    → Fits (length out + length (bit_key_code a))
    → Left r (bit_key_code a ++ rest)
    → (write_ordered_bits out a ≡ ok (out ++ bit_key_code a))
      × ((s : SortBitReader) × (read_ordered_bits r ≡ ok (a, s)) × Left s rest)
      × (ok (less_bits a b) ≡ ok (is_less (lexical (bit_key_code a) (bit_key_code b)).order))
less_bits-write_ordered_bits a b out rest r =
    KeyOrders-at (fc_bit_key (exponential_golomb 0)) (λ key. Fits (length key)) bit_key_code
      (fc_bit_key-KeyOrders (exponential_golomb 0)) a b out rest r
