-- ===== src/SortCodec/Records.antt =====
-- sort_codec.h: the codes of sorts, and the writer and the reader of records. A sort is a number; the
-- types of its keys and values, and their codecs, are families over the sorts. The codec of values is
-- the one of the role, `no_value` for a borrowed stream.
use Prim.Native.Nat.{Ordering}
use Prim.{Dec, yes, no}
use native.Mathlib.Decide.{ℕ_discrete}
use everett.Base.{
  ℕ, zero, suc, ◌+◌, ◌-◌, ◌*◌, Bool, true, false, not, ◌&&◌, [], Option, none, some, ◌≡◌, subst,
  if◌then◌else◌, ltb, ◌==◌, length, is_some, Result, raise, ok, ◌>>=◌, require, invalid_argument,
  logic_error,
}
use everett.BitString.Compare.{BitComparison, compare_common_bits}
use everett.BitString.{Bits, load_bits, append, subview, BackspaceCode}
use everett.Registry.Paths.{index_of}
use everett.Registry.{Registry, sort_undefined, tip, bin, sort_list, contains_sort, dispatch}
use everett.SortCodec.Codecs.{ValueCodec}
use everett.SortCodec.FrontCoding.{prefix}
use everett.SortCodec.KeyCodecs.{KeyCodec}
use everett.SortCodec.{SortBitReader, remaining, write_bits, write_count, read_bits, read_count}

-- `order > 0`
unfoldable pub is_greater : Ordering → Bool
is_greater Ordering.lt = false
is_greater Ordering.eq = false
is_greater Ordering.gt = true

-- A sort of the registry.
unfoldable pub write_sort_code : Registry → ℕ → Bits → Result Bits
write_sort_code sort_undefined s out = ok out
write_sort_code (tip t) s out = ok out
write_sort_code (bin l r) s out =
    let right = not (contains_sort l s) in
    write_bits out (if right then 1 else 0) 1 >>= λ t.
    if right then write_sort_code r s t else write_sort_code l s t
write_sort_code (sort_list ts) s out = write_bits out (index_of ts s 0 0) 8

unfoldable pub sort_code : Registry → ℕ → Result Bits
sort_code registry s = write_sort_code registry s []

pub record PrefixReader : Type 0 where
  pub input : SortBitReader
  pub retained : Bits
  pub path : Bits
  pub at : ℕ

-- The next bit, and the reader without it.
unfoldable pub next_bit : PrefixReader → Result (ℕ × PrefixReader)
next_bit p =
    if ltb p.at (length p.retained)
    then ok (load_bits p.retained p.at 1, record p { at = p.at + 1 })
    else (read_bits p.input 1 >>= λ (bit, s). ok (bit, record p { input = s }))

unfoldable pub prefix_loop : (width : ℕ) → PrefixReader → (value : ℕ) → Result (ℕ × PrefixReader)
prefix_loop zero p value = ok (value, p)
prefix_loop (suc width) p value = next_bit p >>= λ (bit, q). write_bits q.path bit 1 >>= λ path.
    prefix_loop width (record q { path = path }) (value * 2 + bit)

unfoldable pub prefix_bits : PrefixReader → (width : ℕ) → Result (ℕ × PrefixReader)
prefix_bits p width = prefix_loop width p 0

unfoldable pub compare_paths : (same_sort : Bool) → (old path : Bits) → BitComparison
compare_paths same_sort old path =
    if same_sort
    then record { common_bits = length old; order = Ordering.eq }
    else compare_common_bits true old path

pub record SortRecordControl : Type 0 where
  pub start : ℕ
  pub sort_retained : ℕ
  pub sort_bits : ℕ
  pub key_start : ℕ
  pub value_start : ℕ
  pub end : ℕ

module _ (K : ℕ → Type 0) where
  abbrev pub Previous : Type 0
  Previous = Option ((s : ℕ) × K s)

  pub record SortRecordState : Type 0 where
    pub path : Bits
    pub previous : Previous

  pub record SortRecordWriter : Type 0 where
    pub data_ : Bits
    pub state : SortRecordState
    pub failed : Bool

  pub record SortRecordReader : Type 0 where
    pub input : SortBitReader
    pub state : SortRecordState
    pub failed : Bool

  -- `std::get_if<key_state<S>>`
  unfoldable pub held_if : (s t : ℕ) → Dec (t ≡ s) → K t → Option (K s)
  held_if s t (yes e) k = some (subst K e k)
  held_if s t (no _) k = none

  unfoldable pub get_if : (s : ℕ) → Previous → Option (K s)
  get_if s none = none
  get_if s (some (t, k)) = held_if s t (ℕ_discrete t s) k

  module _ (keys : (s : ℕ) → KeyCodec (K s)) where
    -- The keys of one sort rise.
    unfoldable pub rises : (s : ℕ) → (previous : Option (K s)) → K s → Result Bool
    rises s none key = ok true
    rises s (some old) key = (keys s).less old key

    module _ (V : ℕ → Type 0) (values : (s : ℕ) → ValueCodec (V s)) (registry : Registry)
        (tree : BackspaceCode) where
      -- The body of `append`, in the order of its calls.
      unfoldable pub append_record :
          SortRecordWriter → (s : ℕ) → K s → V s → Result (SortRecordControl × SortRecordWriter)
      append_record w s key value =
          let previous = get_if s w.state.previous in
          let same_sort = is_some previous in
          (if same_sort then ok w.state.path else sort_code registry s) >>= λ path.
          let comparison = compare_paths same_sort w.state.path path in
          let retained = comparison.common_bits in
          require (not (is_some w.state.previous && is_greater comparison.order)) invalid_argument
            (rises s previous key)
          >>= λ risen.
              require risen invalid_argument (write_count tree [] (length w.state.path - retained))
              >>= λ t. subview path retained (length path - retained) >>= λ rest.
                  append t rest >>= λ t1. (keys s).write t1 key previous >>= λ t2.
                  (values s).write t2 value >>= λ frame. append w.data_ frame >>= λ data_. ok (
                    record {
                      start = length w.data_;
                      sort_retained = retained;
                      sort_bits = length path;
                      key_start = length w.data_ + length t1;
                      value_start = length w.data_ + length t2;
                      end = length w.data_ + length frame;
                    },
                    record {
                      data_ = data_;
                      state = record { path = path; previous = some (s, key) };
                      failed = false;
                    },
                  )

      -- An exception poisons the writer.
      unfoldable pub settled :
          SortRecordWriter
          → Result (SortRecordControl × SortRecordWriter)
          → Result SortRecordControl × SortRecordWriter
      settled w (raise e) = (raise e, record w { failed = true })
      settled w (ok (control, w')) = (ok control, w')

      unfoldable pub append_sort :
          SortRecordWriter → (s : ℕ) → K s → V s → Result SortRecordControl × SortRecordWriter
      append_sort w s key value =
          if w.failed then (raise logic_error, w) else settled w (append_record w s key value)

      -- What a visitor is called with.
      pub record Visited : Type 0 where
        pub sort : ℕ
        pub key : K sort
        pub value : V sort
        pub control : SortRecordControl

      -- `decode`, with the path of the sort.
      unfoldable pub decode :
          SortRecordState
          → (start retained : ℕ) (reuse : Bool) (path : Bits) (s : ℕ) → SortBitReader
          → Result (Visited × SortRecordReader)
      decode state start retained reuse path s r =
          let previous = get_if s state.previous in
          (keys s).read r previous >>= λ (key, r1). (values s).read r1 >>= λ (value, r2).
          require
            (not (
              is_some state.previous
              && not reuse
              && is_greater (compare_common_bits true state.path path).order))
            invalid_argument (rises s previous key)
          >>= λ risen. require risen invalid_argument (
              ok (
                record {
                  sort = s;
                  key = key;
                  value = value;
                  control = record {
                    start = start;
                    sort_retained = retained;
                    sort_bits = length path;
                    key_start = r.at;
                    value_start = r1.at;
                    end = r2.at;
                  };
                },
                record {
                  input = r2;
                  state = record { path = path; previous = some (s, key) };
                  failed = false;
                },
              ))

      -- The path of another sort, and the sort that it leads to.
      unfoldable pub read_path :
          SortRecordState → (retained : ℕ) → SortBitReader → Result (ℕ × PrefixReader)
      read_path state retained r = prefix state.path retained >>= λ kept.
          dispatch prefix_bits registry (record { input = r; retained = kept; path = []; at = 0 })
          >>= λ (s, p). require (p.at == retained) invalid_argument (ok (s, p))

      unfoldable pub next_record : SortRecordReader → Result (Visited × SortRecordReader)
      next_record r =
          let state = r.state in
          let start = r.input.at in
          read_count tree r.input >>= λ (backspace, r1).
          let retained = length state.path - backspace in
          require (not (ltb (length state.path) backspace)) invalid_argument (
            if backspace == 0
            then elim state.previous [
              | some (s, _) ↦ decode state start retained true state.path s r1
              | none ↦ read_path state retained r1 >>= λ (s, p).
                  decode state start retained false p.path s p.input
            ]
            else (read_path state retained r1 >>= λ (s, p).
                decode state start retained false p.path s p.input))

      -- An exception poisons the reader; where it stopped is not modelled.
      unfoldable pub visited :
          SortRecordReader
          → Result (Visited × SortRecordReader)
          → Result (Option Visited) × SortRecordReader
      visited r (raise e) = (raise e, record r { failed = true })
      visited r (ok (v, r')) = (ok (some v), r')

      unfoldable pub next : SortRecordReader → Result (Option Visited) × SortRecordReader
      next r =
          if r.failed
          then (raise logic_error, r)
          else if remaining r.input == 0
          then (ok none, r)
          else visited r (next_record r)
