-- ===== src/Links/Examples.antt =====
-- Runs and instances for chains, cycles, lists, free lists and indices.
use o.Prelude.{
  ℕ, ◌+◌, ◌-◌, ◌<◌, ◌≡◌, ◌↔◌, inl, refl, Bool, true, false, none, some, [], ◌∷◌, ◌==◌,
  if◌then◌else◌, mod32, arith,
}
use o.Links.{
  Hooks, end, link_back, unlink, first, last, is_empty, is_linked, is_vacant, link_raw, unlink_raw,
  acquire_raw, seeded, new_chain,
}
use o.Links.Order.{World, Order, IsLinked, with_chain, pushed, removed}
use o.Links.Chains
use o.Links.Chains.{Reach, fresh, vacant, chains_refine}
use o.Links.Circle.{IsCycle, Cycle, cycle_push, cycle_move_back, ending}
use o.Links.Circle.Turns
use o.Links.Circle.Turns.{Turns, cycle_refines, put_last}
use o.Links.Free
use o.Links.Free.{IsFree, Acquired, Steps, IsFree-refines}
use o.Links.Stack
use o.Links.Stack.{IsList, Edits, IsList-refines, leading, without}
use o.Links.Index.{
  Index, IsIndex, index_roundtrip, try_new, decode_index, encode_index, from_pos, position_of,
  raw_of,
}

abbrev blank : Hooks
blank = λ i. record { previous = 5; next = 6 }

-- Chain 0 counts, and gets 7, 8 and 9, of which the second is taken out.
abbrev counted : ℕ → Bool
counted c = c == 0

abbrev w0 : World
w0 = fresh counted blank

abbrev w1 : World
w1 = with_chain w0 0 (link_back (w0.chains 0) w0.hooks 7)

abbrev w2 : World
w2 = with_chain w1 0 (link_back (w1.chains 0) w1.hooks 8)

abbrev o2 : Order
o2 = pushed (pushed vacant 0 7) 0 8

abbrev w3 : World
w3 = with_chain w2 0 (unlink (w2.chains 0) w2.hooks (o2.item 0 0))

chain_history : Reach w0 vacant w3 (removed o2 0 0)
chain_history =
    Chains.after
      (Chains.after
        (Chains.after Chains.here (Chains.push 0 7 (λ c k l. absurd (omega arith)) (omega arith)))
        (Chains.push 0 8 (λ c k l. ground arith) (omega arith)))
      (Chains.take_out 0 0 (omega arith))

chains_refine_example :
    IsLinked w3 (removed o2 0 0)
    × ((c : ℕ)
        → first (w3.chains c)
          ≡ (if (removed o2 0 0).len c == 0 then none else some ((removed o2 0 0).item c 0)))
    × ((c : ℕ)
        → last (w3.chains c) ≡ (
            if (removed o2 0 0).len c == 0
            then none
            else some ((removed o2 0 0).item c ((removed o2 0 0).len c - 1))))
    × ((c : ℕ) → is_empty (w3.chains c) ≡ ((removed o2 0 0).len c == 0))
    × ((c k : ℕ)
        → k < (removed o2 0 0).len c
        → (is_linked (w3.hooks ((removed o2 0 0).item c k)) ((removed o2 0 0).item c k) ≡ true)
          × (is_vacant (w3.hooks ((removed o2 0 0).item c k)) ((removed o2 0 0).item c k) ≡ false))
chains_refine_example = chains_refine counted blank w3 (removed o2 0 0) chain_history

chain_run : (w3.chains 0 ≡ record { head = 8; tail = 8; count = some 1 })
unfolding link_back unlink new_chain
chain_run = refl

-- A cycle of 3 and 4 whose head is moved to the back.
abbrev c2 : Cycle × Hooks
c2 = let (a, hooks) = cycle_push end blank 3 in cycle_push a hooks 4

abbrev i2 : ℕ → ℕ
i2 = ending 1 4 (ending 0 3 (λ k. k))

abbrev c3 : Cycle × Hooks
c3 = cycle_move_back false c2.0 c2.1 (i2 0) (i2 0)

cycle_history : Turns blank c3 2 (put_last 2 0 i2)
cycle_history =
    Turns.after
      (Turns.after
        (Turns.after Turns.here (Turns.push 3 (omega arith) (λ k l. absurd (omega arith))))
        (Turns.push 4 (omega arith) (λ k l. ground arith)))
      (Turns.back false 0 (omega arith) (inl refl))

cycle_refines_example :
    IsCycle c3.0 c3.1 2 (put_last 2 0 i2)
    × ((k : ℕ) → k < 2 → is_linked (c3.1 (put_last 2 0 i2 k)) (put_last 2 0 i2 k) ≡ true)
cycle_refines_example = cycle_refines blank c3 2 (put_last 2 0 i2) cycle_history

-- A list that 3 and then 4 lead.
abbrev l2 : ℕ × Hooks
l2 = let (a, hooks) = link_raw end blank 3 in link_raw a hooks 4

abbrev j2 : ℕ → ℕ
j2 = leading 4 (leading 3 (λ k. k))

list_history : Edits blank l2 2 j2
list_history =
    Stack.after (Stack.after Stack.here (Stack.lead 3 (omega arith) (λ k l. absurd (omega arith))))
      (Stack.lead 4 (omega arith) (λ k l. ground arith))

IsList-refines_example :
    IsList l2.0 l2.1 2 j2
    × ((k : ℕ)
        → k < 2
        → (is_linked (l2.1 (j2 k)) (j2 k) ≡ true)
          × (is_vacant ((unlink_raw l2.0 l2.1 (j2 k)).1 (j2 k)) (j2 k) ≡ true))
IsList-refines_example = IsList-refines blank l2 2 j2 list_history

-- Two vacant hooks, of which the first is acquired.
abbrev store : Hooks
store i = if i == 0 then record { previous = 0; next = 1 } else record { previous = i; next = end }

abbrev acquired : ℕ × Hooks
acquired = (acquire_raw (seeded 2) store).1

store-IsFree : IsFree 2 (seeded 2) store (0 ∷ 1 ∷ [])
unfolding seeded
store-IsFree = (refl, omega arith, refl, (ground arith, tt), (refl, omega arith, refl, tt, refl))

free_history : Steps 2 (seeded 2, store) (0 ∷ 1 ∷ []) acquired (1 ∷ [])
free_history = Free.after Free.here (Free.acquire (seeded 2) store 0 (1 ∷ []))

IsFree-refines_example :
    IsFree 2 acquired.0 acquired.1 (1 ∷ [])
    × Acquired 2 acquired.1 (1 ∷ []) (acquire_raw acquired.0 acquired.1)
IsFree-refines_example =
    IsFree-refines 2 (seeded 2, store) acquired (0 ∷ 1 ∷ []) (1 ∷ []) (omega arith) store-IsFree
      free_history

index_roundtrip_example :
    let i : Index = record { word = 9 } in
    (decode_index (encode_index (some i)) ≡ some i)
    × (decode_index (encode_index none) ≡ none)
    × (from_pos (position_of i) ≡ i)
    × (position_of i ≡ raw_of i + 1)
    × ((decode_index 4 ≡ some i) ↔ (try_new 4 ≡ some i))
    × ((try_new 4 ≡ some i) ↔ ((raw_of i ≡ 4) × (4 < mod32 - 1) × IsIndex i))
index_roundtrip_example =
    index_roundtrip (record { word = 9 }) (record { word = 9 }) 4 4 ((omega arith, omega arith))
      (omega arith)
