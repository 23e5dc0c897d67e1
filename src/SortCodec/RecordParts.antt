-- ===== src/SortCodec/RecordParts.antt =====
-- sort_codec.h: the parts of a record in a reader, behind a state.
use Prim.Native.Nat.{Ordering}
use everett.Base.{
  ℕ, ◌-◌, ◌≡◌, refl, subst, ◌∙◌, ap, Bool, true, false, not, ◌&&◌, [], ◌++◌, append_assoc, Option,
  none, some, is_some, length, drop, Result, ok, ◌>>=◌, ==_iff, arith,
}
use everett.BitString.Fields.{Fits}
use everett.BitString.Codewords.{codeword}
use everett.BitString.CommonBytes.{compare_common_bits-lexical}
use everett.BitString.Order.{lexical}
use everett.BitString.{Bits}
use everett.Registry.{contains_sort}
use everett.SortCodec.Reservoir.{Left}
use everett.SortCodec.Codes.{read_count-Decodes}
use everett.SortCodec.Front.{lexical-common, prefix_lem}
use everett.SortCodec.SortPaths.{dispatch-retained}
use everett.SortCodec.Records.{
  PrefixReader, is_greater, SortRecordControl, Previous, SortRecordState, SortRecordReader, get_if,
  Visited, decode, read_path,
}
use everett.SortCodec.{SortBitReader, read_count}
use everett.SortCodec.RecordSteps.{Schema, path_of, shared, frame_code, Follows}

module _ (S : Schema) where
  -- The record is visited, the state is the one behind it, and what follows is left.
  abbrev pub Reads :
      Result (Visited S.K S.keys S.V S.values S.registry S.tree × SortRecordReader S.K)
      → (s : ℕ) → S.K s
      → S.V s
      → Bits
      → Type 0
  Reads result s key value rest =
      (control : SortRecordControl) × (r : SortRecordReader S.K) × (result
        ≡ ok (record { sort = s; key = key; value = value; control = control }, r))
      × (r.failed ≡ false)
      × (r.state ≡ record { path = path_of S s; previous = some (s, key) })
      × Left r.input rest

  -- The path of a state is the code of the sort of its key.
  abbrev pub Held : Bits → Previous S.K → Type 0
  Held path none = path ≡ []
  Held path (some (t, k)) =
      (contains_sort S.registry t ≡ true) × (path ≡ path_of S t) × S.KeyTakes t k

  passes :
      (later reuse : Bool) (o : Ordering)
      → (later && is_greater o) ≡ false
      → (later && not reuse && is_greater o) ≡ false
  passes true true o h = refl
  passes true false o h = h
  passes false reuse o h = refl

  pub decode_accepted :
      (state : SortRecordState S.K) (start n : ℕ) (reuse : Bool) (path : Bits) (s : ℕ)
      (old : Option (S.K s)) (key : S.K s) (value : S.V s) (r : SortBitReader) (rest : Bits)
      → get_if S.K s state.previous ≡ old
      → path ≡ path_of S s
      → Follows S state.path (is_some state.previous) s old key value
      → Left r (S.key_code s key old ++ (S.value_code s value ++ rest))
      → Reads
          (decode S.K S.keys S.V S.values S.registry S.tree state start n reuse path s r)
          s
          key
          value
          rest
  unfolding decode
  decode_accepted state start n reuse path s old key value r rest get whole f l =
      let (r1, e1, l1) =
        (S.keys_ok s).decodes key old f.key_takes f.old_takes r (S.value_code s value ++ rest) l in
      let (r2, e2, l2) = (S.values_ok s).decodes value f.value_takes r1 rest l1 in
      (
        record {
          start = start;
          sort_retained = n;
          sort_bits = length path;
          key_start = r.at;
          value_start = r1.at;
          end = r2.at;
        },
        record {
          input = r2;
          state = record { path = path; previous = some (s, key) };
          failed = false;
        },
        rw
            (
              get,
              e1,
              e2,
              ap (λ k. is_some state.previous && not reuse && is_greater k.order)
                    (compare_common_bits-lexical true state.path path
                      ∙ ap (lexical state.path) whole)
                  ∙ passes (is_some state.previous) reuse (lexical state.path (path_of S s)).order
                      f.ordered,
              f.rising,
            )
            refl,
        refl,
        ap (λ p. record { path = p; previous = some (s, key) }) whole,
        l2,
      )

  pub read_path_accepted :
      (state : SortRecordState S.K) (s : ℕ) (r : SortBitReader) (rest : Bits)
      → contains_sort S.registry s ≡ true
      → Left r (drop (shared S state.path s) (path_of S s) ++ rest)
      → (q : PrefixReader) × (read_path S.K S.keys S.V S.values S.registry S.tree state
            (shared S state.path s)
            r
          ≡ ok (s, q))
        × (q.path ≡ path_of S s)
        × Left q.input rest
  unfolding read_path
  read_path_accepted state s r rest known l =
      let n = shared S state.path s in
      let common = lexical-common state.path (path_of S s) in
      let (q, e, whole, place, l') =
        dispatch-retained S.registry s n state.path rest r S.listed known (S.short s known) common.0
          common.1 common.2 l in
      (q, rw (prefix_lem state.path n common.0, e, (==_iff q.at n).1 place) refl, whole, l')

  regroup :
      (c1 c2 c3 c4 rest : Bits)
      → (((c1 ++ c2) ++ c3) ++ c4) ++ rest ≡ c1 ++ (c2 ++ (c3 ++ (c4 ++ rest)))
  regroup c1 c2 c3 c4 rest =
      append_assoc ((c1 ++ c2) ++ c3) c4 rest
      ∙ (append_assoc (c1 ++ c2) c3 (c4 ++ rest) ∙ append_assoc c1 c2 (c3 ++ (c4 ++ rest)))

  -- The count at the start of a record.
  pub count_read :
      (path : Bits) (s : ℕ) (old : Option (S.K s)) (key : S.K s) (value : S.V s) (r : SortBitReader)
      (rest : Bits)
      → Fits (length path)
      → Left r (frame_code S path s old key value ++ rest)
      → (r1 : SortBitReader) × (read_count S.tree r ≡ ok (length path - shared S path s, r1))
        × Left r1 (
            drop (shared S path s) (path_of S s)
            ++ (S.key_code s key old ++ (S.value_code s value ++ rest)))
  count_read path s old key value r rest fits l =
      read_count-Decodes S.tree (length path - shared S path s) S.is_code (omega (arith, fits)) r _
        (subst (Left r)
          (regroup (codeword S.tree (length path - shared S path s))
            (drop (shared S path s) (path_of S s)) (S.key_code s key old) (S.value_code s value)
            rest)
          l)

  pub other_path :
      (state : SortRecordState S.K) (start : ℕ) (s : ℕ) (old : Option (S.K s)) (key : S.K s)
      (value : S.V s) (r : SortBitReader) (rest : Bits)
      → get_if S.K s state.previous ≡ old
      → Follows S state.path (is_some state.previous) s old key value
      → Left r (
          drop (shared S state.path s) (path_of S s)
          ++ (S.key_code s key old ++ (S.value_code s value ++ rest)))
      → Reads
          (read_path S.K S.keys S.V S.values S.registry S.tree state (shared S state.path s) r
            >>= λ (s', p).
                decode S.K S.keys S.V S.values S.registry S.tree state start
                  (shared S state.path s)
                  false
                  p.path
                  s'
                  p.input)
          s
          key
          value
          rest
  other_path state start s old key value r rest get f l =
      let (q, e, whole, l') =
        read_path_accepted state s r (S.key_code s key old ++ (S.value_code s value ++ rest))
          f.known l in
      rw (e) (
        decode_accepted state start (shared S state.path s) false q.path s old key value q.input
          rest get whole f l')
