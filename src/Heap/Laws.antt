-- ===== src/Heap/Laws.antt =====
-- The operations of a heap, each against the map from indices to entries that the heap holds.
use o.Prelude.{
  ℕ, ◌≤◌, ◌<◌, ◌≡◌, ◌≢◌, inl, inr, refl, Bool, Option, none, some, arith, if◌then◌else◌, ltb,
  Bool-cases, Option-cases,
}
use o.Heap.{Key, Stored, Store, index_at}
use o.Heap.Entry.{same_key, remove, slot_replace, slot_clear, slot_retire, retire}
use o.Heap.Gap.{view}
use o.Heap.Moves.{IsHeap}
use o.Heap.Place.{insert-IsCommitted, replace-IsCommitted}
use o.Heap.Removal.{remove-IsRemoved}

-- What a heap holds under an index is at one position inside it, with that index.
view-some :
    {tie : Bool} {s : Store} {k p : ℕ}
    → IsHeap tie s
    → s.positions k ≡ some p
    → (p < s.len) × (index_at s p ≡ k) × (view s k ≡ some (s.entries p))
view-some {k = k} {p = p} h e = ground (arith, h.indexed.back k p)

-- The map of one heap is that of another, but at an index.
pub record IsUpdated (tie : Bool) (s s' : Store) (k : ℕ) (e : Option Stored) : Type 0 where
  pub heap : IsHeap tie s'
  pub own : view s' k ≡ e
  pub others : (j : ℕ) → j ≢ k → view s' j ≡ view s j
  pub capacity : s'.capacity ≡ s.capacity

pub removed :
    {tie : Bool} {s : Store} (p k : ℕ)
    → IsHeap tie s
    → p < s.len
    → index_at s p ≡ k
    → IsUpdated tie s (remove tie s p).0 k none
removed p k h l e =
    let r = remove-IsRemoved h p l in
    record {
      heap = r.heap;
      own = rw (e) at r.gone;
      others = λ j n. r.others j (rw e n);
      capacity = r.capacity;
    }

module _ {tie : Bool} {s : Store} (h : IsHeap tie s) (key : Key) (i : key.index < s.capacity) where
  -- On a heap over a domain that fits 32 bits, and at a key of the domain, `Slot::replace` yields a
  -- heap that holds the key and the priority under the key's index, whatever was there, and else
  -- what the heap held.
  pub slot_replace-IsUpdated :
      (priority : ℕ)
      → IsUpdated tie s
          (slot_replace tie s key priority)
          key.index
          (some (record { identity = key; priority = priority }))
  unfolding slot_replace
  slot_replace-IsUpdated priority =
      let value : Stored = record { identity = key; priority = priority } in
      elim (Option-cases (s.positions key.index)) [
        | inl e ↦
            let c = insert-IsCommitted h value i e in
            rw (slot_replace, e)
              record { heap = c.heap; own = c.own; others = c.others; capacity = c.capacity }
        | inr (p, e) ↦
            let at = view-some h e in
            let c = (replace-IsCommitted h value p at.0 at.1).0 in
            rw (slot_replace, e)
              record { heap = c.heap; own = c.own; others = c.others; capacity = c.capacity }
      ]

  -- On a heap over a domain that fits 32 bits, and at a key of the domain, `Slot::clear` yields a heap that holds nothing under the key's
  -- index, and else what the heap held.
  pub slot_clear-IsUpdated : IsUpdated tie s (slot_clear tie s key) key.index none
  unfolding slot_clear
  slot_clear-IsUpdated = elim (Option-cases (s.positions key.index)) [
    | inl e ↦
        rw (slot_clear, e)
          record { heap = h; own = ground (arith, e); others = λ j n. refl; capacity = refl }
    | inr (p, e) ↦ let at = view-some h e in rw (slot_clear, e) (removed p key.index h at.0 at.1)
  ]

-- What is left under an index when a key retires: only an entry with its generation goes.
abbrev pub without : Key → Option Stored → Option Stored
without key none = none
without key (some e) = if same_key e.identity key then none else some e

unchanged :
    {tie : Bool} {s : Store} {k : ℕ} {e : Option Stored}
    → IsHeap tie s
    → view s k ≡ e
    → IsUpdated tie s s k e
unchanged h v = record { heap = h; own = v; others = λ j n. refl; capacity = refl }

slot_retire-IsUpdated :
    {tie : Bool} {s : Store} (key : Key)
    → IsHeap tie s
    → IsUpdated tie s (slot_retire tie s key) key.index (without key (view s key.index))
unfolding slot_retire
slot_retire-IsUpdated {s = s} key h = elim (Option-cases (s.positions key.index)) [
  | inl e ↦ rw (slot_retire, e) (unchanged h (ground (arith, e)))
  | inr (p, e) ↦
      let at = view-some h e in
      elim (Bool-cases (same_key (s.entries p).identity key)) [
        | inl t ↦
            let left : without key (view s key.index) ≡ none = ground (arith, e, t) in
            rw (left, slot_retire, e, t) (removed p key.index h at.0 at.1)
        | inr t ↦
            let left : without key (view s key.index) ≡ some (s.entries p) = ground (arith, e, t) in
            rw (left, slot_retire, e, t) (unchanged h at.2)
      ]
]

pub view-outside :
    {tie : Bool} {s : Store} (k : ℕ) → IsHeap tie s → s.capacity ≤ k → view s k ≡ none
view-outside {s = s} k h l = elim (Option-cases (s.positions k)) [
  | inl e ↦ ground (arith, e)
  | inr (p, e) ↦ absurd (ground (arith, h.indexed.back k p e, h.indexed.forth p))
]

-- On a heap over a domain that fits 32 bits, `retire` of any key yields a heap. An entry with that
-- index and generation goes; an entry of another generation, and all else that the heap holds, stays.
-- A key outside the domain changes nothing.
pub retire-IsUpdated :
    (tie : Bool) (s : Store) (key : Key)
    → IsHeap tie s
    → IsUpdated tie s (retire tie s key) key.index (without key (view s key.index))
unfolding retire
retire-IsUpdated tie s key h = elim (Bool-cases (ltb key.index s.capacity)) [
  | inl e ↦ rw (retire, e) (slot_retire-IsUpdated key h)
  | inr e ↦
      let outside = view-outside key.index h (ground arith) in
      rw (retire, e, outside) (unchanged h outside)
]
