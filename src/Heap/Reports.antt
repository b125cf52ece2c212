-- ===== src/Heap/Reports.antt =====
-- src/depot/heap/entry/mod.rs: what `set_min_slot` and `retire_min` report of the heap's minimum.
use mathlib.Core.Path.{subst}
use o.Prelude.{
  ℕ, ◌<◌, ◌≡◌, ◌≢◌, ◌⊎◌, inl, inr, refl, sym, ap, ◌∙◌, Bool, true, false, Option, none, some, arith,
  mod32, ◌==◌, Bool-cases, Option-cases,
}
use o.Heap.{Stored, Store, index_at}
use o.Heap.Entry.{contents, minimum, remove, retire_min, peek}
use o.Heap.Gap.{rank, view}
use o.Heap.Moves.{IsHeap}
use o.Heap.Laws.{IsUpdated, removed}
use o.Heap.Queries.{root_rank}

-- The least priority that a heap holds.
abbrev pub least : Store → Option ℕ
unfolding peek
least s = elim (peek s) as (λ x. Option ℕ) [ none ↦ none | some (key, priority) ↦ some priority ]

priority_rank :
    (tie : Bool) (a b : Stored)
    → a.identity.index < mod32
    → b.identity.index < mod32
    → rank tie a ≡ rank tie b
    → a.priority ≡ b.priority
priority_rank true a b l m e = omega (arith, l, m, e)
priority_rank false a b l m e = e

module _ {tie : Bool} {s : Store} (h : IsHeap tie s) where
  root_view : 0 < s.len → view s (index_at s 0) ≡ some (s.entries 0)
  root_view l = ground (arith, h.indexed.forth 0 l)

  view-inside : (k : ℕ) (e : Stored) → view s k ≡ some e → 0 < s.len
  view-inside k e v = elim (Option-cases (s.positions k)) [
    | inl q ↦ absurd (ground (arith, q, v))
    | inr (p, q) ↦ omega (arith, (h.indexed.back k p q).0)
  ]

  -- Entries at two positions have two indices.
  apart : (p q : ℕ) → p < s.len → q < s.len → p ≢ q → index_at s p ≢ index_at s q
  apart p q l m d e = ground (arith, d, e, h.indexed.forth p, h.indexed.forth q)

  peek-root : 0 < s.len → peek s ≡ some ((s.entries 0).identity, (s.entries 0).priority)
  unfolding peek
  peek-root l = ground (arith, l)

  peek-shown :
      (p : ℕ)
      → p < s.len
      → (p == 0) ≡ true
      → peek s ≡ some ((s.entries p).identity, (s.entries p).priority)
  peek-shown p l b =
      let start : 0 ≡ p = ground (arith, b) in
      subst (λ x. peek s ≡ some ((s.entries x).identity, (s.entries x).priority)) start
        (peek-root (omega (arith, l)))

differ : {e : Stored} {v : Option Stored} → v ≡ some e → v ≡ none → ⊥
differ a b = ground (arith, a, b)

-- Heaps that hold the root of each other have one least priority.
same_least :
    {tie : Bool} {s s' : Store}
    → IsHeap tie s
    → IsHeap tie s'
    → 0 < s.len
    → view s' (index_at s 0) ≡ some (s.entries 0)
    → view s (index_at s' 0) ≡ some (s'.entries 0)
    → least s' ≡ least s
unfolding peek
same_least {tie} {s} {s'} h h' l f g =
    let l' : 0 < s'.len = view-inside h' (index_at s 0) (s.entries 0) f in
    let below = root_rank (index_at s 0) (s.entries 0) h' f in
    let above = root_rank (index_at s' 0) (s'.entries 0) h g in
    let i : index_at s 0 < mod32 = omega (arith, (h.indexed.forth 0 l).1, h.indexed.domain) in
    let i' : index_at s' 0 < mod32 = omega (arith, (h'.indexed.forth 0 l').1, h'.indexed.domain) in
    let same : (s'.entries 0).priority ≡ (s.entries 0).priority =
      priority_rank tie (s'.entries 0) (s.entries 0) i' i (omega (arith, below, above)) in
    ground (arith, l, l', same)

-- An update under an index other than the root's keeps the least priority, where the root of what is
-- left has another index, too.
kept_least :
    {tie : Bool} {s s' : Store} {k : ℕ} {e : Option Stored}
    → IsHeap tie s
    → IsUpdated tie s s' k e
    → 0 < s.len
    → index_at s 0 ≢ k
    → index_at s' 0 ≢ k
    → least s' ≡ least s
kept_least {tie} {s} {s'} {k} h u l d d' =
    let f = u.others (index_at s 0) d ∙ root_view h l in
    let l' = view-inside u.heap (index_at s 0) (s.entries 0) f in
    same_least h u.heap l f (sym (u.others (index_at s' 0) d') ∙ root_view u.heap l')

-- On a heap over a domain that fits 32 bits, `retire_min` at a position inside it yields a heap that
-- holds nothing under the entry's index and else what the heap held; and it reports a change of the
-- minimum only for the entry that `peek` shows, and of contents only where the least priority stays.
pub retire_min-report :
    (tie : Bool) (s : Store) (position : ℕ)
    → IsHeap tie s
    → position < s.len
    → IsUpdated tie s (retire_min tie s position).0 (index_at s position) none
      × ((((retire_min tie s position).1 ≡ minimum)
            × (peek s ≡ some ((s.entries position).identity, (s.entries position).priority)))
          ⊎ (((retire_min tie s position).1 ≡ contents)
              × (least (retire_min tie s position).0 ≡ least s)))
unfolding retire_min
retire_min-report tie s position h l =
    let u = removed position (index_at s position) h l refl in
    (
      u,
      elim (Bool-cases (position == 0)) [
        | inl b ↦ inl (ground (arith, b), peek-shown h position l b)
        | inr b ↦
            let d : index_at s 0 ≢ index_at s position =
              apart h 0 position (omega (arith, l)) l (ground (arith, b)) in
            let l' =
              view-inside u.heap (index_at s 0) (s.entries 0)
                (u.others (index_at s 0) d ∙ root_view h (omega (arith, l))) in
            let gone : index_at (remove tie s position).0 0 ≢ index_at s position = λ w.
              differ (root_view u.heap l') (ap (λ k. view (remove tie s position).0 k) w ∙ u.own) in
            inr (ground (arith, b), kept_least h u (omega (arith, l)) d gone)
      ],
    )
