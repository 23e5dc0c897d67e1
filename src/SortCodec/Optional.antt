-- ===== src/SortCodec/Optional.antt =====
-- sort_codec.h: optional values, by a bit before the value or by a value that stands for none.
use everett.Base.{
  ◌+◌, ◌≡◌, ◌↔◌, refl, Bool, true, false, [], ◌++◌, Option, none, some, length, raise, ok,
  invalid_argument, arith,
}
use everett.BitString.{Bits, field}
use everett.SortCodec.Codes.{
  Encodes, Decodes, Encodes-nothing, Encodes-bind, Decodes-bind, Decodes-ok, Decodes-map,
  write_bits-Encodes, read_bits-Decodes,
}
use everett.SortCodec.Codecs.{
  ValueCodec, write_optional, read_optional, skip_optional, tombstone_value, write_niche,
  read_niche, niche_value,
}
use everett.SortCodec.Values.{RoundTrips, RoundTrips-at}
use everett.BitString.Fields.{Fits}
use everett.SortCodec.Reservoir.{Left}
use everett.SortCodec.{SortBitReader}

module _ {A : Type 0} (codec : ValueCodec A) (Takes : A → Type 0) (code : A → Bits)
    (t : RoundTrips codec Takes code) where
  abbrev pub OptionTakes : Option A → Type 0
  OptionTakes none = Unit {0}
  OptionTakes (some a) = Takes a

  abbrev pub option_code : Option A → Bits
  option_code none = field 1 0 ++ []
  option_code (some a) = field 1 1 ++ code a

  optional-Encodes :
      (o : Option A) → OptionTakes o → Encodes (λ out. write_optional codec out o) (option_code o)
  unfolding write_optional
  optional-Encodes none h =
      Encodes-bind _ _ (field 1 0) [] (write_bits-Encodes 0 1 (omega arith) (omega arith))
        Encodes-nothing
  optional-Encodes (some a) h =
      Encodes-bind _ _ (field 1 1) (code a) (write_bits-Encodes 1 1 (omega arith) (omega arith))
        (t.encodes a h)

  optional-Decodes :
      (o : Option A) → OptionTakes o → Decodes (read_optional codec) (option_code o) o
  unfolding read_optional
  optional-Decodes none h =
      Decodes-bind _ _ (field 1 0) [] 0 none (read_bits-Decodes 0 1 (omega arith) (omega arith))
        (Decodes-ok none)
  optional-Decodes (some a) h =
      Decodes-bind _ _ (field 1 1) (code a) 1 (some a)
        (read_bits-Decodes 1 1 (omega arith) (omega arith))
        (Decodes-map some _ (code a) a (t.decodes a h))

  optional-skips : (o : Option A) → OptionTakes o → Decodes (skip_optional codec) (option_code o) tt
  unfolding skip_optional
  optional-skips none h =
      Decodes-bind _ _ (field 1 0) [] 0 tt (read_bits-Decodes 0 1 (omega arith) (omega arith))
        (Decodes-ok tt)
  optional-skips (some a) h =
      Decodes-bind _ _ (field 1 1) (code a) 1 tt (read_bits-Decodes 1 1 (omega arith) (omega arith))
        (t.skips a h)

  pub tombstone_value-RoundTrips : RoundTrips (tombstone_value codec) OptionTakes option_code
  tombstone_value-RoundTrips = record {
    encodes = optional-Encodes;
    decodes = optional-Decodes;
    skips = optional-skips;
  }

  module _ (eq : A → A → Bool) (eq_iff : (a b : A) → (eq a b ≡ true) ↔ (a ≡ b)) (sentinel : A) where
    -- The sentinel is no value of its own.
    abbrev pub NicheTakes : Option A → Type 0
    NicheTakes none = Takes sentinel
    NicheTakes (some a) = Takes a × (eq a sentinel ≡ false)

    abbrev pub niche_code : Option A → Bits
    niche_code none = code sentinel
    niche_code (some a) = code a

    niche-Encodes :
        (o : Option A)
        → NicheTakes o
        → Encodes (λ out. write_niche codec eq sentinel out o) (niche_code o)
    unfolding write_niche
    niche-Encodes none h = t.encodes sentinel h
    niche-Encodes (some a) (h, other) = rw (other) (t.encodes a h)

    niche-Decodes :
        (o : Option A) → NicheTakes o → Decodes (read_niche codec eq sentinel) (niche_code o) o
    unfolding read_niche
    niche-Decodes none h r rest l =
        let (s, e, l') = t.decodes sentinel h r rest l in
        (s, rw (e, (eq_iff sentinel sentinel).1 refl) refl, l')
    niche-Decodes (some a) (h, other) r rest l =
        let (s, e, l') = t.decodes a h r rest l in (s, rw (e, other) refl, l')

    niche-skips : (o : Option A) → NicheTakes o → Decodes codec.skip (niche_code o) tt
    niche-skips none h = t.skips sentinel h
    niche-skips (some a) h = t.skips a h.0

    pub niche_value-RoundTrips : RoundTrips (niche_value codec eq sentinel) NicheTakes niche_code
    niche_value-RoundTrips = record {
      encodes = niche-Encodes;
      decodes = niche-Decodes;
      skips = niche-skips;
    }

-- For the optional values of a codec that keeps its promise, where there is room: after a bit that
-- says whether there is one, the code of the value is appended; a reader with these next returns the
-- optional value; skipping passes over it; and either leaves what follows.
pub read_optional-write_optional :
    {A : Type 0} (codec : ValueCodec A) (Takes : A → Type 0) (code : A → Bits)
    (t : RoundTrips codec Takes code) (o : Option A) (out rest : Bits) (r : SortBitReader)
    → OptionTakes codec Takes code t o
    → Fits (length out + length (option_code codec Takes code t o))
    → Left r (option_code codec Takes code t o ++ rest)
    → (write_optional codec out o ≡ ok (out ++ option_code codec Takes code t o))
      × ((s : SortBitReader) × (read_optional codec r ≡ ok (o, s)) × Left s rest)
      × ((s : SortBitReader) × (skip_optional codec r ≡ ok (tt, s)) × Left s rest)
read_optional-write_optional codec Takes code t =
    RoundTrips-at (tombstone_value codec) (OptionTakes codec Takes code t)
      (option_code codec Takes code t) (tombstone_value-RoundTrips codec Takes code t)

-- For the optional values of a codec that keeps its promise, with a sentinel that it takes and an
-- equality that decides: a value other than the sentinel is written as it is, and none as the
-- sentinel, where there is room; a reader with the code next returns the optional value; skipping
-- passes over it; either leaves what follows; and the sentinel as a value is refused.
pub read_niche-write_niche :
    {A : Type 0} (codec : ValueCodec A) (Takes : A → Type 0) (code : A → Bits)
    (t : RoundTrips codec Takes code) (eq : A → A → Bool)
    (eq_iff : (a b : A) → (eq a b ≡ true) ↔ (a ≡ b)) (sentinel : A) (o : Option A) (out rest : Bits)
    (r : SortBitReader)
    → NicheTakes codec Takes code t eq eq_iff sentinel o
    → Fits (length out + length (niche_code codec Takes code t eq eq_iff sentinel o))
    → Left r (niche_code codec Takes code t eq eq_iff sentinel o ++ rest)
    → (write_niche codec eq sentinel out o
        ≡ ok (out ++ niche_code codec Takes code t eq eq_iff sentinel o))
      × ((s : SortBitReader) × (read_niche codec eq sentinel r ≡ ok (o, s)) × Left s rest)
      × ((s : SortBitReader) × (codec.skip r ≡ ok (tt, s)) × Left s rest)
      × (write_niche codec eq sentinel out (some sentinel) ≡ raise invalid_argument)
unfolding write_niche
read_niche-write_niche codec Takes code t eq eq_iff sentinel o out rest r takes fits l =
    let (w, reads, skips) =
      RoundTrips-at (niche_value codec eq sentinel)
        (NicheTakes codec Takes code t eq eq_iff sentinel)
        (niche_code codec Takes code t eq eq_iff sentinel)
        (niche_value-RoundTrips codec Takes code t eq eq_iff sentinel) o out rest r takes fits l in
    (unfold write_niche in w, reads, skips, rw ((eq_iff sentinel sentinel).1 refl) refl)
