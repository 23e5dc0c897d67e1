-- ===== src/Rank15.antt =====
-- include/everett/rank15.h on the scalar architecture: the populations of groups of 15 packed into
-- words, four bits each, and their prefix sums. A mask of every other field is a walk over the
-- fields, one of low bits is `%`, and a field that is still zero is set by `+` for `|`.
pub mod Lanes
pub mod Horizontal
pub mod Packing
pub mod Building
pub mod Limits
pub mod Prefixes
mod Examples
use everett.Base.{
  ℕ, zero, suc, ◌+◌, ◌-◌, ◌*◌, ◌/◌, ◌%◌, ◌^◌, Bool, true, false, not, ◌&&◌, ◌||◌, List, [], ◌∷◌,
  ◌++◌, Option, none, some, if◌then◌else◌, ltb, ◌==◌, length, get_elem?, set, Result, raise, ok,
  ◌>>=◌, require, invalid_argument, out_of_range,
}

-- No read is out of range where the shapes of the sections have been checked.
unfoldable pub entry_at : List ℕ → ℕ → ℕ
entry_at xs i = elim (get_elem? xs i) [ none ↦ 0 | some x ↦ x ]

-- `value & 0x0f0f…`, for a number of bytes.
unfoldable pub even_nibbles : (bytes value : ℕ) → ℕ
even_nibbles zero value = 0
even_nibbles (suc k) value = value % 16 + 256 * even_nibbles k (value / 256)

unfoldable pub pair_nibbles : ℕ → ℕ
pair_nibbles value = even_nibbles 8 value + even_nibbles 8 (value / 16)

-- `value & 0x00ff00ff…`, for a number of pairs of bytes.
unfoldable pub even_bytes : (lanes value : ℕ) → ℕ
even_bytes zero value = 0
even_bytes (suc k) value = value % 256 + 65536 * even_bytes k (value / 65536)

unfoldable pub sum_bytes : ℕ → ℕ
sum_bytes value =
    (even_bytes 4 value + even_bytes 4 (value / 256)) * 0x0001000100010001 % 2 ^ 64 / 2 ^ 48

unfoldable pub add_prefix : (checkpoint prefix limit : ℕ) → Result ℕ
add_prefix checkpoint prefix limit =
    require (not (ltb limit checkpoint || ltb (limit - checkpoint) prefix)) invalid_argument
      (ok (checkpoint + prefix))

-- The sections of an index, which a view borrows.
pub record Rank15Index : Type 0 where
  pub classes : List ℕ
  pub checkpoints : List ℕ
  pub virtual_count : ℕ

unfoldable pub group_count : ℕ → ℕ
group_count virtual_count = virtual_count / 15 + (if virtual_count % 15 == 0 then 0 else 1)

-- The constructor of a view checks the shapes.
unfoldable pub view : Rank15Index → Result Rank15Index
view x =
    let groups = group_count x.virtual_count in
    require (length x.classes == (groups + 15) / 16 && length x.checkpoints == (groups + 127) / 128)
      invalid_argument (ok x)

unfoldable pub class_at : Rank15Index → ℕ → Result ℕ
class_at x group =
    require (ltb group (group_count x.virtual_count)) out_of_range
      (ok (entry_at x.classes (group / 16) / 2 ^ (4 * (group % 16)) % 16))

-- The loop of `rank` over whole words.
unfoldable pub sum_pairs : List ℕ → (word count : ℕ) → ℕ
sum_pairs classes word zero = 0
sum_pairs classes word (suc count) =
    pair_nibbles (entry_at classes word) + sum_pairs classes (suc word) count

unfoldable pub rank : Rank15Index → ℕ → Result ℕ
rank x group = require (ltb group (group_count x.virtual_count)) out_of_range (
    let checkpoint = entry_at x.checkpoints (group / 128) in
    let word = group / 128 * 8 in
    let tail = pair_nibbles (entry_at x.classes (group / 16) % 2 ^ (4 * (group % 16))) in
    let pairs = sum_pairs x.classes word (group / 16 - word) + tail in
    if group % 128 == 0
    then add_prefix checkpoint 0 x.virtual_count
    else add_prefix checkpoint (sum_bytes pairs) x.virtual_count)

unfoldable pub count : Rank15Index → Result ℕ
count x =
    let groups = group_count x.virtual_count in
    if groups == 0
    then ok 0
    else (class_at x (groups - 1) >>= λ population.
        require (not (ltb (x.virtual_count - (groups - 1) * 15) population)) invalid_argument
          (rank x (groups - 1) >>= λ before. add_prefix before population x.virtual_count))

-- What the builder has after some groups.
pub record Packed : Type 0 where
  pub classes : List ℕ
  pub checkpoints : List ℕ
  pub total : ℕ

unfoldable pub zeros : ℕ → List ℕ
zeros zero = []
zeros (suc n) = 0 ∷ zeros n

-- The greatest population of a group.
unfoldable pub limit_of : (groups count i : ℕ) → ℕ
limit_of groups count i = if i + 1 == groups && not (count % 15 == 0) then count % 15 else 15

unfoldable pub pack : (population i : ℕ) → Packed → Packed
pack population i s = record {
  classes = set s.classes (i / 16) (entry_at s.classes (i / 16) + population * 2 ^ (4 * (i % 16)));
  checkpoints = if i % 128 == 0 then s.checkpoints ++ (s.total ∷ []) else s.checkpoints;
  total = s.total + population;
}

-- The loop of the builder over the first groups.
unfoldable pub pack_groups : List ℕ → (groups count i : ℕ) → Result Packed
pack_groups source groups count zero =
    ok (record { classes = zeros ((groups + 15) / 16); checkpoints = []; total = 0 })
pack_groups source groups count (suc i) = pack_groups source groups count i >>= λ s.
    require (not (ltb (limit_of groups count i) (entry_at source i))) invalid_argument
      (ok (pack (entry_at source i) i s))

unfoldable pub build : List ℕ → (count : ℕ) → Result Rank15Index
build source count =
    let groups = group_count count in
    require (length source == groups) invalid_argument (
      pack_groups source groups count groups >>= λ s.
      ok (record { classes = s.classes; checkpoints = s.checkpoints; virtual_count = count }))
