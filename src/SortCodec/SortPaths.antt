-- ===== src/SortCodec/SortPaths.antt =====
-- sort_codec.h: the code of a sort is written, and read back behind what is retained of another one.
use everett.Base.{
  ℕ, ◌+◌, ◌^◌, min, ◌≤◌, ◌<◌, ◌≡◌, refl, sym, subst, ◌∙◌, ap, inl, inr, true, false, Option, List,
  [], ◌∷◌, ◌++◌, append_assoc, length-append, Bool-cases, length, take, drop, drop-past,
  take-append, take-drop, length-take, ok, arith,
}
use everett.BitString.Fields.{Fits}
use everett.BitString.{Bits, bits_value, field}
use everett.Registry.Paths.{path_code, Listed, dispatch-path_code, index_of, at-index_of, bits_read}
use everett.Registry.{
  Registry, sort_undefined, tip, bin, sort_list, contains_sort, contains, dispatch,
}
use everett.SortCodec.Reservoir.{Left}
use everett.SortCodec.Codes.{Encodes, Encodes-nothing, Encodes-bind, write_bits-Encodes}
use everett.SortCodec.Prefixed.{PrefixLeft, loop_taken}
use everett.SortCodec.Records.{PrefixReader, prefix_bits, write_sort_code, sort_code}
use everett.SortCodec.{SortBitReader, write_bits}

append_cancel : (a b c : Bits) → a ++ c ≡ b ++ c → a ≡ b
append_cancel a b c e =
    sym (take-append a c)
    ∙ (ap (take (length a)) e ∙ (ap (λ n. take n (b ++ c)) lengths ∙ take-append b c))
  where
    lengths : length a ≡ length b
    lengths = omega (arith, ap length e, length-append a c, length-append b c)

index_small :
    (ts : List (Option ℕ)) (s : ℕ)
    → length ts ≤ 256
    → contains ts s ≡ true
    → index_of ts s 0 0 < 2 ^ 8
index_small ts s l c = omega (arith, l, (at-index_of bits_read ts s 0 0 [] c).1)

pub write_sort_code-Encodes :
    (t : Registry) (s : ℕ)
    → Listed t
    → contains_sort t s ≡ true
    → Encodes (write_sort_code t s) (path_code t s)
unfolding write_sort_code path_code contains_sort
write_sort_code-Encodes sort_undefined s l c = Encodes-nothing
write_sort_code-Encodes (tip t) s l c = Encodes-nothing
write_sort_code-Encodes (bin left right) s (ll, lr) c = elim (Bool-cases (contains_sort left s)) [
  | inl e ↦ rw (e) (
      Encodes-bind _ _ (false ∷ []) (path_code left s) zero_bit
        (write_sort_code-Encodes left s ll e))
  | inr n ↦ rw (n) (
      Encodes-bind _ _ (true ∷ []) (path_code right s) one_bit
        (write_sort_code-Encodes right s lr (rw (n) at c)))
]
  where
    zero_bit : Encodes (λ out. write_bits out 0 1) (false ∷ [])
    zero_bit = unfold field in write_bits-Encodes 0 1 (omega arith) (omega arith)

    one_bit : Encodes (λ out. write_bits out 1 1) (true ∷ [])
    one_bit = unfold field in write_bits-Encodes 1 1 (omega arith) (omega arith)
write_sort_code-Encodes (sort_list ts) s l c =
    write_bits-Encodes (index_of ts s 0 0) 8 (omega arith) (index_small ts s l c)

pub sort_code_lem :
    (t : Registry) (s : ℕ)
    → Listed t
    → contains_sort t s ≡ true
    → Fits (length (path_code t s))
    → sort_code t s ≡ ok (path_code t s)
unfolding sort_code
sort_code_lem t s l c fits = write_sort_code-Encodes t s l c [] (omega (arith, fits))

-- What the reader of a path returns where the path is next, but for a part that is retained.
pub dispatch-retained :
    (t : Registry) (s n : ℕ) (old rest : Bits) (r : SortBitReader)
    → Listed t
    → contains_sort t s ≡ true
    → Fits (length (path_code t s))
    → n ≤ length old
    → n ≤ length (path_code t s)
    → take n old ≡ take n (path_code t s)
    → Left r (drop n (path_code t s) ++ rest)
    → (q : PrefixReader) × (dispatch prefix_bits t
          (record { input = r; retained = take n old; path = []; at = 0 })
        ≡ ok (s, q))
      × (q.path ≡ path_code t s)
      × (q.at ≡ n)
      × Left q.input rest
unfolding prefix_bits
dispatch-retained t s n old rest r listed c fits le_old le_new common l =
    let (q, e, h) =
      dispatch-path_code prefix_bits (PrefixLeft (take n old) (path ++ rest)) reads t s start 0 rest
        listed c begins in
    let path_all = append_cancel q.path path rest h.total in
    let at_end =
      h.place
      ∙ end q.path (length q.retained) path_all (ap length h.same ∙ length-take n old le_old) in
    (
      q,
      e,
      path_all,
      at_end,
      subst (Left q.input)
          (sym (
            h.ahead
            ∙ ap (λ xs. xs ++ h.rest)
                (drop-past q.at q.retained
                  (omega (arith, at_end, ap length h.same, length-take n old le_old)))))
          h.stream,
    )
  where
    path : Bits
    path = path_code t s

    start : PrefixReader
    start = record { input = r; retained = take n old; path = []; at = 0 }

    begins : PrefixLeft (take n old) (path ++ rest) start (length path + 0) (path ++ rest)
    begins = record {
      same = refl;
      total = refl;
      short = omega (arith, fits);
      place = omega arith;
      rest = drop n path ++ rest;
      ahead =
          ap (λ xs. xs ++ rest) (take-drop n path ∙ ap (λ xs. xs ++ drop n path) (sym common))
          ∙ append_assoc (take n old) (drop n path) rest;
      stream = l;
    }

    end : (x : Bits) (k : ℕ) → x ≡ path → k ≡ n → min k (length x) ≡ n
    end x k ex ek = omega (arith, ap length ex, ek, le_new)

    reads :
        (p : PrefixReader) (w room : ℕ) (xs v : Bits)
        → length xs ≡ w
        → PrefixLeft (take n old) (path ++ rest) p (w + room) (xs ++ v)
        → (q : PrefixReader) × (prefix_bits p w ≡ ok (bits_value xs, q))
          × PrefixLeft (take n old) (path ++ rest) q room v
    reads p w room xs v lw h =
        let (q, e, h') =
          loop_taken (take n old) (path ++ rest) xs p room 0 v (
            subst (λ k. PrefixLeft (take n old) (path ++ rest) p (k + room) (xs ++ v)) (sym lw)
              h) in
        (q, ap (prefix_bits p) (sym lw) ∙ (e ∙ ap (λ k. ok (k, q)) (omega arith)), h')
