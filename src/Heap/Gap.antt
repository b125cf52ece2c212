-- ===== src/Heap/Gap.antt =====
-- A store with a hole: what shifting an entry into the hole keeps.
use Prim.Native.Nat.{compare}
use o.Prelude.{
  ℕ, ◌+◌, ◌*◌, ◌<◌, ◌≡◌, ◌≢◌, Bool, true, false, Option, none, some, arith, mod32, Option-cases,
  inl, inr, refl,
}
use o.Heap.{Stored, Store, Hole, index_at, compare_stored, shift, commit}

-- The number by which `compare` orders: the priority, then the index if ties are broken by it.
abbrev pub rank : Bool → Stored → ℕ
rank true e = e.priority * mod32 + e.identity.index
rank false e = e.priority

pub compare_stored-rank :
    (tie : Bool) (a b : Stored)
    → a.identity.index < mod32
    → b.identity.index < mod32
    → compare_stored tie a b ≡ compare (rank tie a) (rank tie b)
unfolding compare_stored
compare_stored-rank true a b h k = ground arith
compare_stored-rank false a b h k = ground arith

-- Outside the hole the reverse map and the entries agree, and no entry there has the key of the
-- value that is held. Every index is in the domain, which fits a word.
pub record IsLinked (h : Hole) : Type 0 where
  pub domain : h.owner.capacity < mod32
  pub inside : h.position < h.owner.len
  pub value_in : h.value.identity.index < h.owner.capacity
  pub forth :
      (p : ℕ)
      → p < h.owner.len
      → p ≢ h.position
      → (h.owner.positions (index_at h.owner p) ≡ some p)
        × (index_at h.owner p < h.owner.capacity)
        × (index_at h.owner p ≢ h.value.identity.index)
  pub back :
      (k p : ℕ)
      → k ≢ h.value.identity.index
      → h.owner.positions k ≡ some p
      → (p < h.owner.len) × (p ≢ h.position) × (index_at h.owner p ≡ k)

-- What the store holds under an index.
abbrev pub view : Store → ℕ → Option Stored
view s k = elim (s.positions k) [ none ↦ none | some p ↦ some (s.entries p) ]

pub shift-IsLinked :
    (h : Hole) (source : ℕ)
    → IsLinked h
    → source < h.owner.len
    → source ≢ h.position
    → IsLinked (shift h source)
unfolding shift
shift-IsLinked h source v a b = record {
  domain = v.domain;
  inside = a;
  value_in = v.value_in;
  forth = λ p l n. ground (arith, v.forth p, v.forth source, v.inside);
  back = λ k p n e. ground (arith, v.back k p, v.forth source, v.inside);
}

pub shift-view :
    (h : Hole) (source k : ℕ)
    → IsLinked h
    → source < h.owner.len
    → source ≢ h.position
    → k ≢ h.value.identity.index
    → view (shift h source).owner k ≡ view h.owner k
unfolding shift
shift-view h source k v a b n = elim (Option-cases (h.owner.positions k)) [
  | inl e ↦ ground (arith, e, v.forth source)
  | inr (p, e) ↦ ground (arith, e, v.forth source, v.back k p)
]

-- A whole store: the reverse map and the entries agree.
pub record IsIndexed (s : Store) : Type 0 where
  pub domain : s.capacity < mod32
  pub forth :
      (p : ℕ) → p < s.len → (s.positions (index_at s p) ≡ some p) × (index_at s p < s.capacity)
  pub back : (k p : ℕ) → s.positions k ≡ some p → (p < s.len) × (index_at s p ≡ k)

-- Placing the value fills the hole. Without `PLACE` its reverse position must already be the hole's.
pub commit-IsIndexed :
    (place : Bool) (h : Hole)
    → IsLinked h
    → (place ≡ false → h.owner.positions h.value.identity.index ≡ some h.position)
    → IsIndexed (commit place h)
      × (view (commit place h) h.value.identity.index ≡ some h.value)
      × ((k : ℕ) → k ≢ h.value.identity.index → view (commit place h) k ≡ view h.owner k)
unfolding commit
commit-IsIndexed true h v q = (
  record {
    domain = v.domain;
    forth = λ p l. ground (arith, v.forth p, v.value_in);
    back = λ k p e. ground (arith, v.back k p, v.inside);
  },
  ground arith,
  λ k n. elim (Option-cases (h.owner.positions k)) [
    | inl e ↦ ground (arith, e)
    | inr (p, e) ↦ ground (arith, e, v.back k p)
  ],
)
commit-IsIndexed false h v q = (
  record {
    domain = v.domain;
    forth = λ p l. ground (arith, v.forth p, v.value_in, q refl);
    back = λ k p e. ground (arith, v.back k p, v.inside, q refl);
  },
  ground (arith, q refl),
  λ k n. elim (Option-cases (h.owner.positions k)) [
    | inl e ↦ ground (arith, e)
    | inr (p, e) ↦ ground (arith, e, v.back k p)
  ],
)
