-- ===== src/Heap/Examples.antt =====
-- Runs and instances for heaps.
use o.Prelude.{
  ◌↔◌, ℕ, ◌+◌, ◌≤◌, ◌<◌, ◌≡◌, ◌≢◌, ◌⊎◌, false, none, some, refl, arith, if◌then◌else◌, ◌==◌,
}
use o.Heap.{Key, Stored, Store, index_at, read, shift, compare_stored}
use o.Heap.Path.{apply, up_end, down_end, repair, raise, lower, child_of, leading_zeros, bits_from}
use o.Heap.Entry.{
  minimum, contents, found, other_generation, empty_slot, out_of_range, retire_min, insert, replace,
  update_value, remove, slot_replace, slot_clear, slot_retire, retire, probe, peek, clear,
}
use o.Heap.Gap.{rank, view}
use o.Heap.Moves.{IsHeap, IsCommitted}
use o.Heap.Place.{insert-IsCommitted, replace-IsCommitted, update_value-IsCommitted}
use o.Heap.Removal.{IsRemoved, remove-IsRemoved}
use o.Heap.Laws.{IsUpdated, without, slot_replace-IsUpdated, slot_clear-IsUpdated, retire-IsUpdated}
use o.Heap.Queries.{probe-entries, peek-IsMinimum, clear-empty}
use o.Heap.Reports.{least, retire_min-report}

abbrev key : ℕ → ℕ → Key
key index generation = record { index = index; generation = generation }

abbrev stored : ℕ → ℕ → ℕ → Stored
stored index generation priority = record { identity = key index generation; priority = priority }

-- Entries of priorities 3, 5, 4 and 5 for the indices 6, 2, 0 and 1 of eight.
abbrev heap : Store
heap = record {
  capacity = 8;
  len = 4;
  entries = λ p.
      if p == 0
      then stored 6 1 3
      else if p == 1
      then stored 2 1 5
      else if p == 2
      then stored 0 4 4
      else stored 1 2 5;
  positions = λ k.
      if k == 6
      then some 0
      else if k == 2
      then some 1
      else if k == 0
      then some 2
      else if k == 1
      then some 3
      else none;
}

heap-IsHeap : IsHeap false heap
heap-IsHeap = record {
  indexed = record {
    domain = omega arith;
    forth = λ p l. ground arith;
    back = λ k p q. ground arith;
  };
  ordered = λ c k l. ground arith;
}

peek_run :
    (peek heap ≡ some (key 6 1, 3)) × (peek (retire false heap (key 6 1)) ≡ some (key 0 4, 4))
unfolding peek retire slot_retire remove read shift repair apply up_end down_end child_of
    leading_zeros bits_from raise lower compare_stored
peek_run = (refl, refl)

-- Another generation of index 6 retires nothing.
stale_run : retire false heap (key 6 2) ≡ heap
unfolding retire slot_retire
stale_run = refl

insert-IsCommitted_example :
    IsCommitted false
      (record heap { len = 4 + 1 })
      (insert false heap (stored 5 0 1))
      (stored 5 0 1)
insert-IsCommitted_example = insert-IsCommitted heap-IsHeap (stored 5 0 1) (omega arith) refl

replace-IsCommitted_example :
    IsCommitted false heap (replace false heap 0 (stored 6 2 9)).0 (stored 6 2 9)
    × ((replace false heap 0 (stored 6 2 9)).0.positions 6
        ≡ some ((replace false heap 0 (stored 6 2 9)).1))
    × ((replace false heap 0 (stored 6 2 9)).2 ≡ stored 6 1 3)
replace-IsCommitted_example = replace-IsCommitted heap-IsHeap (stored 6 2 9) 0 (omega arith) refl

update_value-IsCommitted_example :
    IsCommitted false heap (update_value false heap 3 (stored 1 2 2)) (stored 1 2 2)
update_value-IsCommitted_example =
    update_value-IsCommitted heap-IsHeap (stored 1 2 2) 3 (omega arith) refl

remove-IsRemoved_example : IsRemoved false heap 1 (remove false heap 1)
remove-IsRemoved_example = remove-IsRemoved heap-IsHeap 1 (omega arith)

slot_replace-IsUpdated_example :
    IsUpdated false heap (slot_replace false heap (key 2 7) 1) 2 (some (stored 2 7 1))
slot_replace-IsUpdated_example = slot_replace-IsUpdated heap-IsHeap (key 2 7) (omega arith) 1

slot_clear-IsUpdated_example : IsUpdated false heap (slot_clear false heap (key 2 7)) 2 none
slot_clear-IsUpdated_example = slot_clear-IsUpdated heap-IsHeap (key 2 7) (omega arith)

retire-IsUpdated_example :
    IsUpdated false heap (retire false heap (key 6 1)) 6 (without (key 6 1) (view heap 6))
retire-IsUpdated_example = retire-IsUpdated false heap (key 6 1) heap-IsHeap

probe-entries_example :
    ((probe heap (key 6 2) ≡ found 0) ↔ ((0 < 4) × (◌≡◌ {A = Key} (key 6 1) (key 6 2))))
    × ((probe heap (key 6 2) ≡ other_generation)
        ↔ ((q : ℕ) × (q < 4) × (index_at heap q ≡ 6) × ((heap.entries q).identity ≢ key 6 2)))
    × ((probe heap (key 6 2) ≡ empty_slot) ↔ ((6 < 8) × ((q : ℕ) → q < 4 → index_at heap q ≢ 6)))
    × ((probe heap (key 6 2) ≡ out_of_range) ↔ (8 ≤ 6))
probe-entries_example = probe-entries false heap (key 6 2) 0 heap-IsHeap

peek-IsMinimum_example :
    ((e : Stored) × (peek heap ≡ some (e.identity, e.priority))
      × (view heap e.identity.index ≡ some e)
      × ((k : ℕ) (f : Stored) → view heap k ≡ some f → rank false e ≤ rank false f))
    ⊎ ((peek heap ≡ none) × ((k : ℕ) → view heap k ≡ none))
peek-IsMinimum_example = peek-IsMinimum false heap heap-IsHeap

clear-empty_example :
    IsHeap false (clear heap)
    × ((clear heap).len ≡ 0)
    × ((k : ℕ) → (clear heap).positions k ≡ none)
    × ((clear heap).capacity ≡ 8)
clear-empty_example = clear-empty false heap heap-IsHeap

retire_min-report_example :
    IsUpdated false heap (retire_min false heap 0).0 6 none
    × ((((retire_min false heap 0).1 ≡ minimum) × (peek heap ≡ some (key 6 1, 3)))
        ⊎ (((retire_min false heap 0).1 ≡ contents)
            × (least (retire_min false heap 0).0 ≡ least heap)))
retire_min-report_example = retire_min-report false heap 0 heap-IsHeap (omega arith)
