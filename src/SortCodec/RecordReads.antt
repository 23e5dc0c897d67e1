-- ===== src/SortCodec/RecordReads.antt =====
-- sort_codec.h: a record that was appended behind a state is what a reader at that state visits next.
use Prim.{yes, no}
use native.Mathlib.Decide.{ℕ_discrete}
use mathlib.Core.Path.{path_j}
use everett.Base.{
  ℕ, ◌-◌, ◌≤◌, ◌≡◌, ◌≢◌, refl, sym, subst, ◌∙◌, ap, inl, inr, Bool, true, false, [], ◌++◌, none,
  some, is_some, Bool-cases, ltb, length, take, drop, drop-past, take-drop, take-all, ◌==◌, arith,
}
use everett.BitString.Order.{lexical}
use everett.BitString.{Bits}
use everett.Registry.Paths.{path_code-inj}
use everett.Registry.{contains_sort}
use everett.SortCodec.Reservoir.{Left}
use everett.SortCodec.Front.{lexical-common}
use everett.SortCodec.Records.{Previous, get_if, next_record}
use everett.SortCodec.{SortBitReader}
use everett.SortCodec.RecordSteps.{
  Schema, path_of, shared, frame_code, Follows, get_if_same, get_if_other, lexical_self,
}
use everett.SortCodec.RecordParts.{Reads, Held, decode_accepted, count_read, other_path}

module _ (S : Schema) where
  kept_back :
      (path : Bits) (s : ℕ) → length path - (length path - shared S path s) ≡ shared S path s
  kept_back path s = omega (arith, (lexical-common path (path_of S s)).0)

  no_more : (n m : ℕ) → ltb n (n - m) ≡ false
  no_more n m = ground arith

  first_read :
      (path : Bits) (input : SortBitReader) (failed : Bool) (s : ℕ) (key : S.K s) (value : S.V s)
      (rest : Bits)
      → path ≡ []
      → Follows S path false s none key value
      → Left input (frame_code S path s none key value ++ rest)
      → Reads S
          (next_record S.K S.keys S.V S.values S.registry S.tree (record {
            input = input;
            state = record { path = path; previous = none };
            failed = failed;
          }))
          s
          key
          value
          rest
  unfolding next_record get_if
  first_read path input failed s key value rest empty f l =
      let (r1, e, l1) = count_read S path s none key value input rest f.path_short l in
      rw
        (
          e,
          no_more (length path) (shared S path s),
          nothing (length path) (shared S path s) (ap length empty),
          kept_back path s,
        )
        (other_path S (record { path = path; previous = none }) input.at s none key value r1 rest
          refl f l1)
    where
      nothing : (n m : ℕ) → n ≡ 0 → (n - m == 0) ≡ true
      nothing n m h = ground (arith, h)

  same_read :
      (path : Bits) (input : SortBitReader) (failed : Bool) (s : ℕ) (k key : S.K s) (value : S.V s)
      (rest : Bits)
      → path ≡ path_of S s
      → Follows S path true s (some k) key value
      → Left input (frame_code S path s (some k) key value ++ rest)
      → Reads S
          (next_record S.K S.keys S.V S.values S.registry S.tree (record {
            input = input;
            state = record { path = path; previous = some (s, k) };
            failed = failed;
          }))
          s
          key
          value
          rest
  unfolding next_record
  same_read path input failed s k key value rest whole f l =
      let (r1, e, l1) = count_read S path s (some k) key value input rest f.path_short l in
      rw (e, no_more (length path) n, nothing)
        (decode_accepted S (record { path = path; previous = some (s, k) }) input.at
          (length path - (length path - n)) true path s (some k) key value r1 rest
          (get_if_same S.K s k) whole f
          (subst (Left r1)
            (ap (λ x. x ++ (S.key_code s key (some k) ++ (S.value_code s value ++ rest))) all_kept)
            l1))
    where
      n : ℕ
      n = shared S path s

      n_all : n ≡ length path
      n_all =
          ap (λ x. (lexical path x).common_bits) (sym whole)
          ∙ ap (λ k. k.common_bits) (lexical_self path)

      nothing : (length path - n == 0) ≡ true
      nothing = ground (arith, n_all)

      all_kept : drop n (path_of S s) ≡ []
      all_kept = drop-past n (path_of S s) (omega (arith, n_all, ap length whole))

  other_read :
      (path : Bits) (input : SortBitReader) (failed : Bool) (t : ℕ) (k : S.K t) (s : ℕ)
      (key : S.K s) (value : S.V s) (rest : Bits)
      → t ≢ s
      → contains_sort S.registry t ≡ true
      → path ≡ path_of S t
      → Follows S path true s none key value
      → Left input (frame_code S path s none key value ++ rest)
      → Reads S
          (next_record S.K S.keys S.V S.values S.registry S.tree (record {
            input = input;
            state = record { path = path; previous = some (t, k) };
            failed = failed;
          }))
          s
          key
          value
          rest
  unfolding next_record
  other_read path input failed t k s key value rest differ known whole f l =
      let (r1, e, l1) = count_read S path s none key value input rest f.path_short l in
      rw (e, no_more (length path) n, some_back, kept_back path s)
        (other_path S (record { path = path; previous = some (t, k) }) input.at s none key value r1
          rest (get_if_other S.K s t k differ) f l1)
    where
      n : ℕ
      n = shared S path s

      common : (n ≤ length path) × (n ≤ length (path_of S s)) × (take n path ≡ take n (path_of S s))
      common = lexical-common path (path_of S s)

      extended : (length path - n == 0) ≡ true → path_of S s ≡ path_of S t ++ drop n (path_of S s)
      extended e =
          take-drop n (path_of S s)
          ∙ ap (λ x. x ++ drop n (path_of S s))
              (sym common.2 ∙ (take-all n path (ground (arith, e, common.0)) ∙ whole))

      some_back : (length path - n == 0) ≡ false
      some_back = elim (Bool-cases (length path - n == 0)) [
        | inl e ↦ absurd (
            differ (
              path_code-inj S.registry t s (drop n (path_of S s)) S.listed known f.known
                (extended e)))
        | inr m ↦ m
      ]

  -- What the reader does at the code of a record that follows its state.
  pub next_record_accepted :
      (path : Bits) (previous : Previous S.K) (input : SortBitReader) (failed : Bool) (s : ℕ)
      (key : S.K s) (value : S.V s) (rest : Bits)
      → Held S path previous
      → Follows S path (is_some previous) s (get_if S.K s previous) key value
      → Left input (frame_code S path s (get_if S.K s previous) key value ++ rest)
      → Reads S
          (next_record S.K S.keys S.V S.values S.registry S.tree (record {
            input = input;
            state = record { path = path; previous = previous };
            failed = failed;
          }))
          s
          key
          value
          rest
  next_record_accepted path none input failed s key value rest h f l =
      first_read path input failed s key value rest h (unfold get_if in f) (unfold get_if in l)
  next_record_accepted path (some (t, k)) input failed s key value rest (known, whole, _) f l =
      elim (ℕ_discrete t s) [
        | yes e ↦
            path_j
              (λ u _.
                (key : S.K u) (value : S.V u)
                → Follows S path true u (get_if S.K u (some (t, k))) key value
                → Left input (frame_code S path u (get_if S.K u (some (t, k))) key value ++ rest)
                → Reads S
                    (next_record S.K S.keys S.V S.values S.registry S.tree (record {
                      input = input;
                      state = record { path = path; previous = some (t, k) };
                      failed = failed;
                    }))
                    u key value rest)
              (λ key value f l.
                same_read path input failed t k key value rest whole
                  (subst (λ old. Follows S path true t old key value) (get_if_same S.K t k) f)
                  (subst (λ old. Left input (frame_code S path t old key value ++ rest))
                    (get_if_same S.K t k) l))
              e key value f l
        | no n ↦
            other_read path input failed t k s key value rest n known whole
              (subst (λ old. Follows S path true s old key value) (get_if_other S.K s t k n) f)
              (subst (λ old. Left input (frame_code S path s old key value ++ rest))
                (get_if_other S.K s t k n) l)
      ]
