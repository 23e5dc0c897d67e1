-- ===== src/SortCodec/RecordStreams.antt =====
-- sort_codec.h: the records of a stream that are appended one by one are those that a reader visits.
use Prim.{yes, no}
use native.Mathlib.Decide.{ℕ_discrete}
use mathlib.Core.Path.{path_j}
use everett.Base.{
  ℕ, zero, suc, ◌+◌, ◌-◌, ◌<◌, ◌≡◌, refl, sym, subst, ◌∙◌, ap, true, false, ◌&&◌, List, [], ◌∷◌,
  ◌++◌, append_assoc, append-nil, length-append, Option, none, some, is_some, length, drop, Result,
  ok, raise, ◌>>=◌, invalid_argument, ◌==◌, arith,
}
use everett.BitString.Fields.{Fits}
use everett.BitString.Codewords.{codeword, codeword_pos}
use everett.BitString.Order.{lexical}
use everett.BitString.{Bits}
use everett.Registry.{contains_sort}
use everett.SortCodec.Reservoir.{Left, remaining-Left, reader-Left}
use everett.SortCodec.KeyLaws.{PreviousTakes}
use everett.SortCodec.Records.{
  is_greater, Previous, SortRecordState, SortRecordWriter, SortRecordReader, get_if, rises,
  append_sort, settled, Visited, next_record, visited, next,
}
use everett.SortCodec.{SortBitReader, reader, remaining}
use everett.SortCodec.RecordSteps.{
  Schema, path_of, shared, frame_code, Follows, append_accepted, get_if_same, get_if_other,
}
use everett.SortCodec.RecordParts.{Held}
use everett.SortCodec.RecordReads.{next_record_accepted}

module _ (S : Schema) where
  abbrev pub SortRecord : Type 0
  SortRecord = (s : ℕ) × S.K s × S.V s

  -- One call of `append` for each, until one raises.
  unfoldable pub append_all : SortRecordWriter S.K → List SortRecord → Result (SortRecordWriter S.K)
  append_all w [] = ok w
  append_all w ((s, key, value) ∷ records) =
      let (result, w') = append_sort S.K S.keys S.V S.values S.registry S.tree w s key value in
      result >>= λ _. append_all w' records

  -- What was visited, and then the rest.
  unfoldable pub found :
      (SortRecordReader S.K → Result (List SortRecord))
      → Result (Option (Visited S.K S.keys S.V S.values S.registry S.tree)) × SortRecordReader S.K
      → Result (List SortRecord)
  found rest (raise e, r) = raise e
  found rest (ok none, r) = ok []
  found rest (ok (some v), r) = rest r >>= λ records. ok ((v.sort, v.key, v.value) ∷ records)

  -- Calls of `next` until there is no more, or one raises.
  unfoldable pub visit_all : (calls : ℕ) → SortRecordReader S.K → Result (List SortRecord)
  visit_all zero r = raise invalid_argument
  visit_all (suc calls) r =
      found (visit_all calls) (next S.K S.keys S.V S.values S.registry S.tree r)

  -- A record of a sort of the registry that the codecs take, whose code is not before the path, and
  -- whose key is not less than one of its sort, nor equal to it.
  pub record InOrder (path : Bits) (previous : Previous S.K) (s : ℕ) (key : S.K s) (value : S.V s)
      : Type 0 where
    pub known : contains_sort S.registry s ≡ true
    pub key_takes : S.KeyTakes s key
    pub value_takes : S.ValueTakes s value
    pub ordered : (is_some previous && is_greater (lexical path (path_of S s)).order) ≡ false
    pub rising : rises S.K S.keys s (get_if S.K s previous) key ≡ ok true

  -- Each record follows the one before.
  abbrev pub AllInOrder : Bits → Previous S.K → List SortRecord → Type 0
  AllInOrder path previous [] = Unit {0}
  AllInOrder path previous ((s, key, value) ∷ records) =
      InOrder path previous s key value × AllInOrder (path_of S s) (some (s, key)) records

  abbrev pub stream_code : Bits → Previous S.K → List SortRecord → Bits
  stream_code path previous [] = []
  stream_code path previous ((s, key, value) ∷ records) =
      frame_code S path s (get_if S.K s previous) key value
      ++ stream_code (path_of S s) (some (s, key)) records

  abbrev KnownOf : Bits → (s : ℕ) → Option (S.K s) → Type 0
  KnownOf path s old = PreviousTakes (S.KeyTakes s) old × (is_some old ≡ true → path ≡ path_of S s)

  get_if_known :
      (path : Bits) (previous : Previous S.K) (s : ℕ)
      → Held S path previous
      → KnownOf path s (get_if S.K s previous)
  get_if_known path none s h = unfold get_if in (tt, λ e. absurd (cc))
  get_if_known path (some (t, k)) s (known, whole, takes) = elim (ℕ_discrete t s) [
    | yes e ↦
        path_j (λ u _. KnownOf path u (get_if S.K u (some (t, k))))
          (subst (KnownOf path t) (sym (get_if_same S.K t k)) (takes, λ _. whole)) e
    | no n ↦ subst (KnownOf path s) (sym (get_if_other S.K s t k n)) (tt, λ e. absurd (cc))
  ]

  path-Fits : (path : Bits) (previous : Previous S.K) → Held S path previous → Fits (length path)
  path-Fits path none h = omega (arith, ap length h)
  path-Fits path (some (t, k)) (known, whole, takes) =
      omega (arith, ap length whole, S.short t known)

  follows :
      (path : Bits) (previous : Previous S.K) (s : ℕ) (key : S.K s) (value : S.V s)
      → Held S path previous
      → InOrder path previous s key value
      → Follows S path (is_some previous) s (get_if S.K s previous) key value
  follows path previous s key value h o = record {
    known = o.known;
    key_takes = o.key_takes;
    value_takes = o.value_takes;
    old_takes = (get_if_known path previous s h).0;
    same_path = (get_if_known path previous s h).1;
    ordered = o.ordered;
    rising = o.rising;
    path_short = path-Fits path previous h;
  }

  appended :
      (path : Bits) (previous : Previous S.K) (out : Bits) (records : List SortRecord)
      → Held S path previous
      → AllInOrder path previous records
      → Fits (length out + length (stream_code path previous records))
      → (w : SortRecordWriter S.K) × (append_all
            (record {
              data_ = out;
              state = record { path = path; previous = previous };
              failed = false;
            })
            records
          ≡ ok w)
        × (w.failed ≡ false)
        × (w.data_ ≡ out ++ stream_code path previous records)
  unfolding append_all append_sort settled
  appended path previous out [] h o fits = (_, refl, refl, sym (append-nil out))
  appended path previous out ((s, key, value) ∷ records) h (o, os) fits =
      let frame = frame_code S path s (get_if S.K s previous) key value in
      let more = stream_code (path_of S s) (some (s, key)) records in
      let (control, e) =
        append_accepted S
          (record {
            data_ = out;
            state = record { path = path; previous = previous };
            failed = false;
          })
          s (get_if S.K s previous) key value refl (follows path previous s key value h o)
          (omega (arith, fits, length-append frame more)) in
      let (w, es, live, all) =
        appended (path_of S s) (some (s, key)) (out ++ frame) records (o.known, refl, o.key_takes)
          os (omega (arith, fits, length-append frame more, length-append out frame)) in
      (w, rw (e) es, live, all ∙ append_assoc out frame more)

  abbrev Stream : Type 0
  Stream = SortRecordReader S.K

  next_end :
      (r : Stream)
      → r.failed ≡ false
      → (remaining r.input == 0) ≡ true
      → next S.K S.keys S.V S.values S.registry S.tree r ≡ (ok none, r)
  unfolding next
  next_end r live empty = rw (live, empty) refl

  next_found :
      (r r' : Stream) (v : Visited S.K S.keys S.V S.values S.registry S.tree)
      → r.failed ≡ false
      → (remaining r.input == 0) ≡ false
      → next_record S.K S.keys S.V S.values S.registry S.tree r ≡ ok (v, r')
      → next S.K S.keys S.V S.values S.registry S.tree r ≡ (ok (some v), r')
  unfolding next visited
  next_found r r' v live more e = rw (e, more, live) refl

  visited_all :
      (path : Bits) (previous : Previous S.K) (input : SortBitReader) (records : List SortRecord)
      → Held S path previous
      → AllInOrder path previous records
      → Left input (stream_code path previous records)
      → visit_all (suc (length records)) (record {
        input = input;
        state = record { path = path; previous = previous };
        failed = false;
      })
        ≡ ok records
  unfolding visit_all found
  visited_all path previous input [] h o l =
      rw
        (next_end
          (record {
            input = input;
            state = record { path = path; previous = previous };
            failed = false;
          })
          refl empty)
        refl
    where
      empty : (remaining input == 0) ≡ true
      empty = ground (arith, remaining-Left input [] l)
  visited_all path previous input ((s, key, value) ∷ records) h (o, os) l =
      let frame = frame_code S path s (get_if S.K s previous) key value in
      let more = stream_code (path_of S s) (some (s, key)) records in
      let (control, r, e, live, state, l') =
        next_record_accepted S path previous input false s key value more h
          (follows path previous s key value h o) l in
      rw
        (
          next_found
              (record {
                input = input;
                state = record { path = path; previous = previous };
                failed = false;
              })
              r _ refl (nonempty frame more l (longer more)) e,
          ap (visit_all (suc (length records)))
                (next_state r (record { path = path_of S s; previous = some (s, key) }) state live)
              ∙ visited_all (path_of S s) (some (s, key)) r.input records
                  (o.known, refl, o.key_takes) os l',
        )
        refl
    where
      next_state :
          (r : SortRecordReader S.K) (state : SortRecordState S.K)
          → r.state ≡ state
          → r.failed ≡ false
          → r ≡ record { input = r.input; state = state; failed = false }
      next_state r state es live = λ i. record { input = r.input; state = es i; failed = live i }

      nonempty :
          (frame more : Bits)
          → Left input (frame ++ more)
          → 0 < length (frame ++ more)
          → (remaining input == 0) ≡ false
      nonempty frame more l pos = ground (arith, remaining-Left input (frame ++ more) l, pos)

      longer :
          (more : Bits) → 0 < length (frame_code S path s (get_if S.K s previous) key value ++ more)
      longer more =
          let c1 = codeword S.tree (length path - shared S path s) in
          let c2 = drop (shared S path s) (path_of S s) in
          let c3 = S.key_code s key (get_if S.K s previous) in
          let c4 = S.value_code s value in
          omega (
            arith,
            codeword_pos S.tree (length path - shared S path s)
                (omega (arith, path-Fits path previous h)),
            length-append (((c1 ++ c2) ++ c3) ++ c4) more,
            length-append ((c1 ++ c2) ++ c3) c4,
            length-append (c1 ++ c2) c3,
            length-append c1 c2,
          )

-- Records of the sorts of a registry, whose codecs keep their promises, in the order of the codes of
-- their sorts and with rising keys in each sort, for whose codes there is room: the writer appends
-- all of them without an exception, and a reader of what it wrote visits exactly these, in order,
-- and is then at the end.
pub visit_all-append_all :
    (S : Schema) (records : List (SortRecord S))
    → AllInOrder S [] none records
    → Fits (length (stream_code S [] none records))
    → (w : SortRecordWriter S.K) × (append_all S
          (record { data_ = []; state = record { path = []; previous = none }; failed = false })
          records
        ≡ ok w)
      × (w.failed ≡ false)
      × (visit_all S (suc (length records)) (record {
        input = reader w.data_ 0;
        state = record { path = []; previous = none };
        failed = false;
      })
          ≡ ok records)
visit_all-append_all S records o fits =
    let (w, e, live, all) = appended S [] none [] records refl o (omega (arith, fits)) in
    (
      w,
      e,
      live,
      visited_all S [] none (reader w.data_ 0) records refl o
          (subst (Left (reader w.data_ 0)) all (reader-Left w.data_ 0)),
    )
