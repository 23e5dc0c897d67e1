-- ===== src/Registry/Paths.antt =====
-- registry.h: the code of a sort leads to it, so that no code is the beginning of another one.
use everett.Base.{
  ℕ, ◌+◌, ◌^◌, ◌≤◌, ◌<◌, ◌≡◌, refl, sym, subst, ◌∙◌, ap, inl, inr, true, false, not, List, [], ◌∷◌,
  ◌++◌, Option, none, some, if◌then◌else◌, Bool-cases, ltb, ◌==◌, ==_iff, length, take, drop,
  append-nil, length-append, take-append, drop-append, Result, raise, ok, require, invalid_argument,
  arith,
}
use native.Mathlib.Nat.{mod-eq_of_lt}
use everett.BitString.Fields.{length-field, bits_value-field}
use everett.BitString.{Bits, field, bits_value}
use everett.Registry.{
  Registry, sort_undefined, tip, bin, sort_list, same, contains, contains_sort, visit, at,
  discriminator, dispatch,
}

-- The place of a sort in a list: the last one, if there are more.
unfoldable pub index_of : (sorts : List (Option ℕ)) (s i index : ℕ) → ℕ
index_of [] s i index = index
index_of (t ∷ ts) s i index = index_of ts s (i + 1) (if same t s then i else index)

unfoldable pub path_code : Registry → ℕ → Bits
path_code sort_undefined s = []
path_code (tip t) s = []
path_code (bin l r) s = if contains_sort l s then false ∷ path_code l s else (true ∷ path_code r s)
path_code (sort_list ts) s = field 8 (index_of ts s 0 0)

-- A list has no more sorts than a byte has values.
abbrev pub Listed : Registry → Type 0
Listed sort_undefined = Unit {0}
Listed (tip t) = Unit {0}
Listed (bin l r) = Listed l × Listed r
Listed (sort_list ts) = length ts ≤ 256

same_visit :
    {R : Type 0} (read : R → ℕ → Result (ℕ × R)) (t : Option ℕ) (s : ℕ) (r : R)
    → same t s ≡ true
    → visit read t r ≡ ok (s, r)
unfolding visit same
same_visit read none s r h = absurd (cc)
same_visit read (some t) s r h = ap (λ n. ok (n, r)) ((==_iff t s).0 h)

-- Without the sort, the index stays; with it, the index is found in the list.
index_of-absent :
    (ts : List (Option ℕ)) (s i index : ℕ) → contains ts s ≡ false → index_of ts s i index ≡ index
unfolding index_of contains
index_of-absent [] s i index h = refl
index_of-absent (t ∷ ts) s i index h = elim (Bool-cases (same t s)) [
  | inl e ↦ absurd (ground (arith, e, h))
  | inr n ↦ rw (n) (index_of-absent ts s (i + 1) index (rw (n) at h))
]

pub at-index_of :
    {R : Type 0} (read : R → ℕ → Result (ℕ × R)) (ts : List (Option ℕ)) (s i index : ℕ) (r : R)
    → contains ts s ≡ true
    → (i ≤ index_of ts s i index)
      × (index_of ts s i index < i + length ts)
      × (at read ts i (index_of ts s i index) r ≡ ok (s, r))
unfolding index_of contains at
at-index_of read [] s i index r h = absurd (cc)
at-index_of read (t ∷ ts) s i index r h = elim (Bool-cases (contains ts s)) [
  | inl e ↦
      let (le, lt, found) = at-index_of read ts s (i + 1) (if same t s then i else index) r e in
      (omega (arith, le), omega (arith, lt), rw (later _ le) found)
  | inr n ↦
      let here = first n in
      let e =
        index_of-absent ts s (i + 1) (if same t s then i else index) n
        ∙ ap (λ b. if b then i else index) here in
      (
        omega (arith, e),
        omega (arith, e),
        rw (ap (λ k. k == i) e ∙ (==_iff i i).1 refl) (same_visit read t s r here),
      )
]
  where
    later : (k : ℕ) → i + 1 ≤ k → (k == i) ≡ false
    later k le = ground (arith, le)

    first : contains ts s ≡ false → same t s ≡ true
    first n = elim (Bool-cases (same t s)) [ inl e ↦ e | inr m ↦ absurd (ground (arith, m, n, h)) ]

module _ {R : Type 0} (read : R → ℕ → Result (ℕ × R)) (Has : R → (room : ℕ) → Bits → Type 0)
    (reads : (r : R) (w room : ℕ) (xs rest : Bits)
      → length xs ≡ w
      → Has r (w + room) (xs ++ rest)
      → (r' : R) × (read r w ≡ ok (bits_value xs, r')) × Has r' room rest) where
  discriminates :
      (r : R) (w v room : ℕ) (rest : Bits)
      → v < 2 ^ w
      → Has r (w + room) (field w v ++ rest)
      → (r' : R) × (discriminator read r w ≡ ok (v, r')) × Has r' room rest
  unfolding discriminator
  discriminates r w v room rest small h =
      let (r', e, h') = reads r w room (field w v) rest (length-field w v) h in
      (r', rw (e, bits_value-field w v, mod-eq_of_lt small, inside) refl, h')
    where
      inside : ltb v (2 ^ w) ≡ true
      inside = ground (arith, small)

  -- A reader that has the code of a sort next is led to the sort.
  pub dispatch-path_code :
      (t : Registry) (s : ℕ) (r : R) (room : ℕ) (rest : Bits)
      → Listed t
      → contains_sort t s ≡ true
      → Has r (length (path_code t s) + room) (path_code t s ++ rest)
      → (r' : R) × (dispatch read t r ≡ ok (s, r')) × Has r' room rest
  unfolding dispatch path_code contains_sort field
  dispatch-path_code sort_undefined s r room rest l c h = absurd (cc)
  dispatch-path_code (tip t) s r room rest l c h =
      (r, same_visit read t s r c, subst (λ n. Has r n rest) (omega arith) h)
  dispatch-path_code (bin left right) s r room rest (ll, lr) c h =
      elim (Bool-cases (contains_sort left s)) [
        | inl e ↦
            let (r', er, h') =
              discriminates r 1 0 (length (path_code left s) + room) (path_code left s ++ rest)
                (omega arith)
                (subst (λ n. Has r n (false ∷ (path_code left s ++ rest))) (omega arith)
                  (rw (e) at h)) in
            let (r'', er', h'') = dispatch-path_code left s r' room rest ll e h' in
            (r'', rw (er) er', h'')
        | inr e ↦
            let (r', er, h') =
              discriminates r 1 1 (length (path_code right s) + room) (path_code right s ++ rest)
                (omega arith)
                (subst (λ n. Has r n (true ∷ (path_code right s ++ rest))) (omega arith)
                  (rw (e) at h)) in
            let (r'', er', h'') = dispatch-path_code right s r' room rest lr (rw (e) at c) h' in
            (r'', rw (er) er', h'')
      ]
  dispatch-path_code (sort_list ts) s r room rest l c h =
      let (r', er, h') =
        discriminates r 8 (index_of ts s 0 0) room rest (small (at-index_of read ts s 0 0 r c).1) (
          subst (λ n. Has r (n + room) (field 8 (index_of ts s 0 0) ++ rest))
            (length-field 8 (index_of ts s 0 0)) h) in
      (r', rw (er) (at-index_of read ts s 0 0 r' c).2, h')
    where
      small : index_of ts s 0 0 < 0 + length ts → index_of ts s 0 0 < 2 ^ 8
      small lt = omega (arith, l, lt)

-- The sort that bits lead to, as the dispatch takes them, and what is left of them.
unfoldable pub bits_read : Bits → ℕ → Result (ℕ × Bits)
bits_read bits width =
    require (not (ltb (length bits) width)) invalid_argument
      (ok (bits_value (take width bits), drop width bits))

-- A code that is the beginning of a code with more is that code.
pub path_code-inj :
    (t : Registry) (s u : ℕ) (more : Bits)
    → Listed t
    → contains_sort t s ≡ true
    → contains_sort t u ≡ true
    → path_code t u ≡ path_code t s ++ more
    → s ≡ u
unfolding bits_read
path_code-inj t s u more l cs cu e =
    let (r, es, hs) =
      dispatch-path_code bits_read Has reads t s (path_code t s ++ more) 0 more l cs refl in
    let (r', eu, hu) =
      dispatch-path_code bits_read Has reads t u (path_code t u ++ []) 0 [] l cu refl in
    ap first (sym es ∙ (ap (dispatch bits_read t) (sym e ∙ sym (append-nil (path_code t u))) ∙ eu))
  where
    Has : Bits → ℕ → Bits → Type 0
    Has r room v = r ≡ v

    inside : (xs rest : Bits) → ltb (length (xs ++ rest)) (length xs) ≡ false
    inside xs rest = ground (arith, length-append xs rest)

    reads :
        (r : Bits) (w room : ℕ) (xs rest : Bits)
        → length xs ≡ w
        → Has r (w + room) (xs ++ rest)
        → (r' : Bits) × (bits_read r w ≡ ok (bits_value xs, r')) × Has r' room rest
    reads r w room xs rest lw h =
        (rest, rw (sym lw, h, inside xs rest, take-append xs rest, drop-append xs rest) refl, refl)

    first : Result (ℕ × Bits) → ℕ
    first (ok (n, x)) = n
    first (raise e) = 0
