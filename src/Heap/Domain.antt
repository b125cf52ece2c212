-- ===== src/Heap/Domain.antt =====
-- The order of a heap's entries by rank, and the room in its domain.

use Prim.Native.Nat.Ordering.{lt, eq, gt}
use o.Prelude.{
  injective_le, ℕ, ◌+◌, ◌≤◌, ◌<◌, ◌≡◌, Bool, true, false, none, arith, mod32, if◌then◌else◌, ◌==◌,
}
use o.Heap.{Stored, Store, index_at, compare_stored, is_lt, is_gt}
use o.Heap.Gap.{IsIndexed, rank, compare_stored-rank}

-- The outcomes of `compare` are those of the ranks.
pub rank_lt :
    (tie : Bool) (a b : Stored)
    → a.identity.index < mod32
    → b.identity.index < mod32
    → (is_lt (compare_stored tie a b) ≡ true → rank tie a < rank tie b)
      × (is_lt (compare_stored tie a b) ≡ false → rank tie b ≤ rank tie a)
rank_lt tie a b h k = rw (compare_stored-rank tie a b h k) (ground arith)

pub rank_gt :
    (tie : Bool) (a b : Stored)
    → a.identity.index < mod32
    → b.identity.index < mod32
    → (is_gt (compare_stored tie a b) ≡ true → rank tie b < rank tie a)
      × (is_gt (compare_stored tie a b) ≡ false → rank tie a ≤ rank tie b)
rank_gt tie a b h k = rw (compare_stored-rank tie a b h k) (ground arith)

pub rank-eq :
    (tie : Bool) (a b : Stored)
    → a.identity.index < mod32
    → b.identity.index < mod32
    → (compare_stored tie a b ≡ lt → rank tie a < rank tie b)
      × (compare_stored tie a b ≡ gt → rank tie b < rank tie a)
      × (compare_stored tie a b ≡ eq → rank tie a ≡ rank tie b)
rank-eq tie a b h k = rw (compare_stored-rank tie a b h k) (ground arith)

-- The entries of a store have distinct indices of its domain, and so has a vacant one.
pub IsIndexed-len : (s : Store) → IsIndexed s → s.len ≤ s.capacity
IsIndexed-len s v =
    injective_le s.capacity s.len (index_at s) (λ i h. (v.forth i h).1)
      (λ i j h k e. ground (arith, v.forth i, v.forth j))

pub IsIndexed-room :
    (s : Store) (k : ℕ) → IsIndexed s → k < s.capacity → s.positions k ≡ none → s.len < s.capacity
IsIndexed-room s k v h e =
    let few =
      injective_le s.capacity (s.len + 1) (λ i. if i == s.len then k else index_at s i)
        (λ i l. ground (arith, v.forth i)) (λ i j l m n. ground (arith, v.forth i, v.forth j)) in
    omega (arith, few)
