-- ===== src/Heap/Path.antt =====
-- src/depot/heap/hole/path.rs: the decision where a value goes, made before anything moves.
use Prim.Native.Nat.{Ordering}
use o.Prelude.{ℕ, zero, suc, ◌+◌, ◌-◌, ◌*◌, ◌/◌, ◌^◌, ltb, leb, ◌==◌, ◌&&◌, if◌then◌else◌}
use o.Heap.{Store, Stored, Hole, is_lt, is_gt, shift}

-- `Path`, with its owner beside it
pub record HolePath : Type 0 where
  pub start : ℕ
  pub end : ℕ

abbrev pub parent : ℕ → ℕ
parent p = (p - 1) / 2

-- The loop of `up`; the fuel is one more than the start, which falls at each round.
unfoldable pub up_end : ℕ → (ℕ → Ordering) → ℕ → ℕ
up_end zero compare end = end
up_end (suc k) compare end =
    let rest = up_end k compare (parent end) in
    if end == 0 then end else if is_lt (compare (parent end)) then rest else end

abbrev pub up : ℕ → (ℕ → Ordering) → HolePath
up start compare = record { start = start; end = up_end (start + 1) compare start }

-- The child that a round of `down` compares.
unfoldable pub child_of : ℕ → (ℕ → ℕ → Ordering) → ℕ → ℕ
child_of len at end =
    let left = end * 2 + 1 in
    let right = left + 1 in left + (if ltb right len && is_lt (at right left) then 1 else 0)

-- The loop of `down`; the fuel is one more than the length, which bounds the position.
unfoldable pub down_end : ℕ → ℕ → (ℕ → ℕ → Ordering) → (ℕ → Ordering) → ℕ → ℕ
down_end zero len at compare end = end
down_end (suc k) len at compare end =
    let child = child_of len at end in
    let rest = down_end k len at compare child in
    if leb 2 len && leb end ((len - 2) / 2)
    then if is_gt (compare child) then rest else end
    else end

abbrev pub down : ℕ → ℕ → (ℕ → ℕ → Ordering) → (ℕ → Ordering) → HolePath
down start len at compare = record { start = start; end = down_end (len + 1) len at compare start }

unfoldable pub repair : ℕ → ℕ → (ℕ → ℕ → Ordering) → (ℕ → Ordering) → HolePath
repair start len at compare =
    let rise = record (up (parent start) compare) { start = start } in
    let sink = down start len at compare in
    if start == 0 then sink else if is_lt (compare (parent start)) then rise else sink

-- The number of binary digits of a `usize`; `leading_zeros` is 64 less it.
unfoldable pub bits_from : ℕ → ℕ → ℕ
bits_from zero x = 0
bits_from (suc k) x = let rest = bits_from k (x / 2) in if x == 0 then 0 else rest + 1

unfoldable pub leading_zeros : ℕ → ℕ
unfolding bits_from
leading_zeros x = 64 - bits_from 64 x

-- `while hole.position != end`; the fuel is one more than the position, which falls.
unfoldable pub raise : ℕ → ℕ → Hole → Hole
raise zero end hole = hole
raise (suc k) end hole =
    let rest = raise k end (shift hole (parent hole.position)) in
    if hole.position == end then hole else rest

-- The loop that counts `depth` down to 0, from at least 1.
unfoldable pub lower : ℕ → ℕ → Hole → Hole
lower zero end hole = hole
lower (suc depth) end hole = lower depth end (shift hole ((end + 1) / 2 ^ depth - 1))

-- `Path::apply`
unfoldable pub apply : Store → HolePath → Stored → Hole
apply owner path value =
    let hole : Hole = record { owner = owner; value = value; position = path.start } in
    if ltb path.end path.start
    then raise (path.start + 1) path.end hole
    else if ltb path.start path.end
    then lower (leading_zeros (path.start + 1) - leading_zeros (path.end + 1)) path.end hole
    else hole
