-- ===== src/Links/Index.antt =====
-- src/depot/queue/links/index.rs: the compact index as it is stored, the complement of its number.
use o.Prelude.{
  ℕ, ◌+◌, ◌-◌, ◌<◌, ◌≡◌, ◌≢◌, ◌↔◌, Option, none, some, leb, if◌then◌else◌, mod32, as_u32, arith,
  nonzero,
}

-- `Index(NonZero<u32>)`
pub record Index : Type 0 where
  pub word : ℕ

-- `!word` on a `u32`
abbrev pub complement : ℕ → ℕ
complement word = mod32 - 1 - word

pub new_raw : ℕ → Index
new_raw raw = record { word = complement raw }

pub try_new : ℕ → Option Index
unfolding new_raw
try_new index = if leb (mod32 - 1) index then none else some (new_raw (as_u32 index))

pub raw_of : Index → ℕ
raw_of self = complement self.word

pub decode_index : ℕ → Option Index
decode_index raw = elim (nonzero (complement raw)) [
  | none ↦ none
  | some word ↦ some (record { word = word })
]

pub encode_index : Option Index → ℕ
unfolding raw_of
encode_index none = mod32 - 1
encode_index (some index) = raw_of index

-- `cast_signed`, `wrapping_neg` and `cast_unsigned`
abbrev pub negate : ℕ → ℕ
negate word = as_u32 (mod32 - word)

pub position_of : Index → ℕ
position_of self = negate self.word

pub from_pos : ℕ → Index
from_pos position = record { word = negate position }

-- An index: a nonzero word of 32 bits.
abbrev pub IsIndex : Index → Type 0
IsIndex i = (i.word ≢ 0) × (i.word < mod32)

-- The encodings of an index undo each other: `decode` reads what `encode` wrote, for an index and for
-- none, and `from_pos` reads a position, which is one more than the `raw` number. `try_new` accepts
-- exactly the numbers below the sentinel 2 ^ 32 - 1, whatever the size of the number, as the index of
-- that `raw` number, and on words of 32 bits `decode` accepts what `try_new` does.
pub index_roundtrip :
    (i j : Index) (n word : ℕ)
    → IsIndex i
    → word < mod32
    → (decode_index (encode_index (some i)) ≡ some i)
      × (decode_index (encode_index none) ≡ none)
      × (from_pos (position_of i) ≡ i)
      × (position_of i ≡ raw_of i + 1)
      × ((decode_index word ≡ some j) ↔ (try_new word ≡ some j))
      × ((try_new n ≡ some j) ↔ ((raw_of j ≡ n) × (n < mod32 - 1) × IsIndex j))
unfolding decode_index encode_index from_pos position_of raw_of try_new new_raw
index_roundtrip i j n word h l =
    (ground arith, ground arith, ground arith, ground arith, ground arith, ground arith)
