-- ===== src/SortCodec/RecordSteps.antt =====
-- sort_codec.h: a record that keeps the order is appended, and read back from the same state.
use Prim.{Dec, yes, no}
use Prim.Native.Nat.{Ordering}
use native.Mathlib.Nat.{ℕ_set}
use native.Mathlib.Decide.{ℕ_discrete}
use mathlib.Core.Path.{subst_refl}
use everett.Base.{
  ℕ, ◌+◌, ◌-◌, ◌≡◌, ◌≢◌, refl, sym, subst, ◌∙◌, ap, Bool, true, false, ◌&&◌, [], ◌∷◌, ◌++◌,
  length-append, Option, none, some, is_some, if◌then◌else◌, length, drop, ok, arith,
}
use everett.BitString.Fields.{Fits, append-Fits}
use everett.BitString.Codewords.{IsCode, codeword}
use everett.BitString.CommonBytes.{compare_common_bits-lexical}
use everett.BitString.Order.{lexical, one_more}
use everett.BitString.{Bits, BackspaceCode}
use everett.Registry.Paths.{path_code, Listed}
use everett.Registry.{Registry, contains_sort}
use everett.SortCodec.Codes.{write_count-Encodes}
use everett.SortCodec.Codecs.{ValueCodec}
use everett.SortCodec.Values.{RoundTrips}
use everett.SortCodec.Front.{subview-rest, lexical-common}
use everett.SortCodec.KeyCodecs.{KeyCodec}
use everett.SortCodec.KeyLaws.{KeyRoundTrips, PreviousTakes}
use everett.SortCodec.SortPaths.{sort_code_lem}
use everett.SortCodec.Records.{
  sort_code, is_greater, compare_paths, SortRecordControl, SortRecordWriter, held_if, get_if, rises,
  append_record,
}

module _ (K : ℕ → Type 0) where
  same_if : (s : ℕ) (k : K s) (d : Dec (s ≡ s)) → held_if K s s d k ≡ some k
  unfolding held_if
  same_if s k (yes e) = ap some (ap (λ p. subst K p k) (ℕ_set s s e refl) ∙ subst_refl K k)
  same_if s k (no n) = absurd (n refl)

  pub get_if_same : (s : ℕ) (k : K s) → get_if K s (some (s, k)) ≡ some k
  unfolding get_if
  get_if_same s k = same_if s k (ℕ_discrete s s)

  other_if : (s t : ℕ) (k : K t) (d : Dec (t ≡ s)) → t ≢ s → held_if K s t d k ≡ none
  unfolding held_if
  other_if s t k (yes e) n = absurd (n e)
  other_if s t k (no _) n = refl

  pub get_if_other : (s t : ℕ) (k : K t) → t ≢ s → get_if K s (some (t, k)) ≡ none
  unfolding get_if
  get_if_other s t k n = other_if s t k (ℕ_discrete t s) n

pub lexical_self : (a : Bits) → lexical a a ≡ record { common_bits = length a; order = Ordering.eq }
unfolding lexical
lexical_self [] = refl
lexical_self (true ∷ a) = ap one_more (lexical_self a)
lexical_self (false ∷ a) = ap one_more (lexical_self a)

compare_paths-lexical :
    (same : Bool) (old path : Bits)
    → (same ≡ true → old ≡ path)
    → compare_paths same old path ≡ lexical old path
unfolding compare_paths
compare_paths-lexical true old path h = sym (
    ap (λ x. lexical x path) (h refl)
    ∙ (lexical_self path
        ∙ ap (λ n. record { common_bits = n; order = Ordering.eq }) (sym (ap length (h refl)))))
compare_paths-lexical false old path h = compare_common_bits-lexical true old path

ordered_none : (b : Bool) (o : Ordering) → is_greater o ≡ false → (b && is_greater o) ≡ false
ordered_none true o h = h
ordered_none false o h = refl

-- The sorts of a registry, with the codecs of their keys and values, which keep their promises, and a
-- code for the counts of the paths; a path leaves room for the rounding to bytes.
pub record Schema : Type 1 where
  pub K : ℕ → Type 0
  pub V : ℕ → Type 0
  pub keys : (s : ℕ) → KeyCodec (K s)
  pub values : (s : ℕ) → ValueCodec (V s)
  pub registry : Registry
  pub tree : BackspaceCode
  pub KeyTakes : (s : ℕ) → K s → Type 0
  pub key_code : (s : ℕ) → K s → Option (K s) → Bits
  pub ValueTakes : (s : ℕ) → V s → Type 0
  pub value_code : (s : ℕ) → V s → Bits
  pub keys_ok : (s : ℕ) → KeyRoundTrips (keys s) (KeyTakes s) (key_code s)
  pub values_ok : (s : ℕ) → RoundTrips (values s) (ValueTakes s) (value_code s)
  pub is_code : IsCode tree
  pub listed : Listed registry
  pub short : (s : ℕ) → contains_sort registry s ≡ true → Fits (length (path_code registry s))

module _ (S : Schema) where
  abbrev pub path_of : ℕ → Bits
  path_of s = path_code S.registry s

  -- What is kept of the path before.
  abbrev pub shared : (path : Bits) (s : ℕ) → ℕ
  shared path s = (lexical path (path_of s)).common_bits

  -- The code of a record behind a path and behind a key of its sort or none.
  abbrev pub frame_code : (path : Bits) (s : ℕ) (old : Option (S.K s)) → S.K s → S.V s → Bits
  frame_code path s old key value =
      ((codeword S.tree (length path - shared path s) ++ drop (shared path s) (path_of s))
        ++ S.key_code s key old)
      ++ S.value_code s value

  -- A record of a sort of the S.registry, in the order of the codes, and behind the key before it.
  pub record Follows (path : Bits) (later : Bool) (s : ℕ) (old : Option (S.K s)) (key : S.K s)
      (value : S.V s) : Type 0 where
    pub known : contains_sort S.registry s ≡ true
    pub key_takes : S.KeyTakes s key
    pub value_takes : S.ValueTakes s value
    pub old_takes : PreviousTakes (S.KeyTakes s) old
    pub same_path : is_some old ≡ true → path ≡ path_of s
    pub ordered : (later && is_greater (lexical path (path_of s)).order) ≡ false
    pub rising : rises S.K S.keys s old key ≡ ok true
    pub path_short : Fits (length path)

  chosen :
      (path : Bits) (s : ℕ) (old : Option (S.K s))
      → (is_some old ≡ true → path ≡ path_of s)
      → contains_sort S.registry s ≡ true
      → (if is_some old then ok path else sort_code S.registry s) ≡ ok (path_of s)
  chosen path s none h c = sort_code_lem S.registry s S.listed c (S.short s c)
  chosen path s (some k) h c = ap ok (h refl)

  -- What `append` does with a record that follows.
  pub append_accepted :
      (w : SortRecordWriter S.K) (s : ℕ) (old : Option (S.K s)) (key : S.K s) (value : S.V s)
      → get_if S.K s w.state.previous ≡ old
      → Follows w.state.path (is_some w.state.previous) s old key value
      → Fits (length w.data_ + length (frame_code w.state.path s old key value))
      → (control : SortRecordControl) × (append_record S.K S.keys S.V S.values S.registry S.tree w s
            key value
          ≡ ok (
            control,
            record {
              data_ = w.data_ ++ frame_code w.state.path s old key value;
              state = record { path = path_of s; previous = some (s, key) };
              failed = false;
            },
          ))
  unfolding append_record
  append_accepted w s old key value get f fits =
      let n = shared w.state.path s in
      let common = lexical-common w.state.path (path_of s) in
      let whole = path_of s in
      let c1 = codeword S.tree (length w.state.path - n) in
      let c2 = drop n whole in
      let c3 = S.key_code s key old in
      let c4 = S.value_code s value in
      let l4 = length-append ((c1 ++ c2) ++ c3) c4 in
      let l3 = length-append (c1 ++ c2) c3 in
      let l2 = length-append c1 c2 in
      (
        record {
          start = length w.data_;
          sort_retained = n;
          sort_bits = length whole;
          key_start = length w.data_ + length (c1 ++ c2);
          value_start = length w.data_ + length ((c1 ++ c2) ++ c3);
          end = length w.data_ + length (((c1 ++ c2) ++ c3) ++ c4);
        },
        rw
            (
              get,
              chosen w.state.path s old f.same_path f.known,
              compare_paths-lexical (is_some old) w.state.path whole f.same_path,
              f.ordered,
              f.rising,
              write_count-Encodes S.tree (length w.state.path - n) S.is_code
                  (omega (arith, f.path_short)) [] (omega (arith, fits, l4, l3, l2)),
              subview-rest whole n common.1,
              append-Fits c1 c2 (omega (arith, fits, l4, l3, l2)),
              (S.keys_ok s).encodes key old f.key_takes f.old_takes (c1 ++ c2)
                  (omega (arith, fits, l4, l3)),
              (S.values_ok s).encodes value f.value_takes ((c1 ++ c2) ++ c3)
                  (omega (arith, fits, l4)),
              append-Fits w.data_ (((c1 ++ c2) ++ c3) ++ c4) fits,
            )
            refl,
      )
