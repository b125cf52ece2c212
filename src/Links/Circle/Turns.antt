-- ===== src/Links/Circle/Turns.antt =====
-- Whole histories of one circular order, against sequences.
use o.Prelude.{
  ℕ, ◌+◌, ◌-◌, ◌<◌, ◌≡◌, ◌≢◌, Bool, true, false, ◌==◌, ◌||◌, arith, Bool-cases, inl, inr, ◌⊎◌, refl,
}
use o.Links.{Hooks, end, is_linked}
use o.Links.Circle.{
  Cycle, IsCycle, next_live, cycle_push, unlink_key, cycle_pop, cycle_move_back, turned, skipping,
  ending, next_live-IsCycle, cycle_push-IsCycle, unlink_key-IsCycle,
}

-- The order with the item at an offset put last.
abbrev pub put_last : ℕ → ℕ → (ℕ → ℕ) → ℕ → ℕ
put_last len p item = ending (len - 1) (item p) (skipping p item)

-- An order is its items at the offsets below its length.
pub resize :
    {self : Cycle} {hooks : Hooks} {len len' : ℕ} {item item' : ℕ → ℕ}
    → len ≡ len'
    → ((k : ℕ) → k < len → item k ≡ item' k)
    → IsCycle self hooks len item
    → IsCycle self hooks len' item'
resize {len = len} e f v = record {
  apart = λ k j p q r. ground (arith, e, r, v.apart k j, f k, f j);
  proper = λ k p. ground (arith, e, v.proper k, f k);
  head = ground (arith, e, v.head, f 0);
  previous = λ k p. ground (arith, e, v.previous k, f k, f (k - 1), f (len - 1));
  next = λ k p. ground (arith, e, v.next k, f k, f (k + 1), f 0);
}

pub from_equal :
    {len : ℕ} {item : ℕ → ℕ} {a b : Cycle × Hooks}
    → a ≡ b
    → IsCycle b.0 b.1 len item
    → IsCycle a.0 a.1 len item
from_equal e v = rw e v

module _ {self : Cycle} {hooks : Hooks} {len : ℕ} {item : ℕ → ℕ}
    (v : IsCycle self hooks len item) where
  -- Every removal but the head's, and every one that advances, is that of `unlink_key`.
  pub cycle_pop-head : 0 < len → cycle_pop self hooks (item 0) ≡ unlink_key self hooks (item 0)
  unfolding cycle_pop unlink_key
  cycle_pop-head l = ground (arith, v.head)

  move_back-turned :
      (front : Bool) (p : ℕ)
      → p < len
      → (front ≡ true) ⊎ (p ≡ 0)
      → (cycle_move_back front self hooks (item p) (item 0))
        ≡ ((next_live self hooks (item 0)).0, hooks)
  unfolding cycle_move_back
  move_back-turned front p l n = ground (arith, n)

  move_back-last :
      (p : ℕ)
      → 0 < p
      → p + 1 ≡ len
      → (cycle_move_back false self hooks (item p) (item 0)) ≡ (self, hooks)
  unfolding cycle_move_back
  move_back-last p l n = ground (arith, n, v.previous 0, v.apart 0 p)

  move_back-between :
      (p : ℕ)
      → 0 < p
      → p + 1 < len
      → let (left, rest) = unlink_key self hooks (item p) in
        (cycle_move_back false self hooks (item p) (item 0)) ≡ cycle_push left rest (item p)
  unfolding cycle_move_back
  move_back-between p l n = ground (arith, n, v.previous 0, v.apart 0 p, v.apart (len - 1) p)

  skipping-apart : (p : ℕ) → p < len → (k : ℕ) → k < len - 1 → skipping p item k ≢ item p
  skipping-apart p l k q e = ground (arith, e, v.apart k p, v.apart (k + 1) p)

  rest_is :
      (front : Bool) (p : ℕ) {x : Cycle × Hooks}
      → front || (p == 0) ≡ false
      → cycle_move_back false self hooks (item p) (item 0) ≡ x
      → cycle_move_back front self hooks (item p) (item 0) ≡ x
  rest_is true p b e = absurd (ground (arith, b))
  rest_is false p b e = e

  pub move_back-IsCycle :
      (front : Bool) (p : ℕ)
      → p < len
      → (front ≡ false) ⊎ (p ≡ 0)
      → let (cycle, rest) = cycle_move_back front self hooks (item p) (item 0) in
        IsCycle cycle rest len (put_last len p item)
  move_back-IsCycle front p l n = elim (Bool-cases (front || (p == 0))) [
    | inl b ↦
        from_equal (move_back-turned front p l (ground (arith, b)))
          (resize refl (λ k q. ground (arith, b, n)) (next_live-IsCycle v (omega arith)))
    | inr b ↦ elim (Bool-cases (p + 1 == len)) [
      | inl e ↦
          from_equal (rest_is front p b (move_back-last p (ground (arith, b)) (ground (arith, e))))
            (resize refl (λ k q. ground (arith, e)) v)
      | inr e ↦
          from_equal
            (rest_is front p b (move_back-between p (ground (arith, b)) (ground (arith, e))))
            (resize (omega arith) (λ k q. refl)
              (cycle_push-IsCycle (unlink_key-IsCycle v p l) (item p) (v.proper p l)
                (skipping-apart p l)))
    ]
  ]

-- What the owner of a cycle can do, each operation under its safety contract, on the sequence too.
pub data Turn (self : Cycle) (hooks : Hooks) (len : ℕ) (item : ℕ → ℕ)
    : Cycle × Hooks → ℕ → (ℕ → ℕ) → Type 0 where
  push :
      (i : ℕ)
      → i < end
      → ((k : ℕ) → k < len → item k ≢ i)
      → Turn self hooks len item (cycle_push self hooks i) (len + 1) (ending len i item)
  take_out :
      (p : ℕ)
      → p < len
      → Turn self hooks len item (unlink_key self hooks (item p)) (len - 1) (skipping p item)
  pop :
      0 < len → Turn self hooks len item (cycle_pop self hooks (item 0)) (len - 1) (skipping 0 item)
  advance :
      0 < len
      → Turn self hooks len item ((next_live self hooks (item 0)).0, hooks) len (turned len item)
  back :
      (front : Bool) (p : ℕ)
      → p < len
      → (front ≡ false) ⊎ (p ≡ 0)
      → Turn self hooks len item
          (cycle_move_back front self hooks (item p) (item 0))
          len
          (put_last len p item)

pub data Turns (hooks : Hooks) : Cycle × Hooks → ℕ → (ℕ → ℕ) → Type 0 where
  here : Turns hooks (end, hooks) 0 (λ k. k)
  after :
      {self : Cycle} {now : Hooks} {len : ℕ} {item : ℕ → ℕ} {x : Cycle × Hooks} {len' : ℕ}
      {item' : ℕ → ℕ}
      → Turns hooks (self, now) len item
      → Turn self now len item x len' item'
      → Turns hooks x len' item'

Turn-IsCycle :
    {self : Cycle} {hooks : Hooks} {len : ℕ} {item : ℕ → ℕ} {x : Cycle × Hooks} {len' : ℕ}
    {item' : ℕ → ℕ}
    → Turn self hooks len item x len' item'
    → IsCycle self hooks len item
    → IsCycle x.0 x.1 len' item'
Turn-IsCycle (push i l a) v = cycle_push-IsCycle v i l a
Turn-IsCycle (take_out p l) v = unlink_key-IsCycle v p l
Turn-IsCycle {self} {hooks} {item = item} (pop l) v =
    from_equal (cycle_pop-head v l) (unlink_key-IsCycle v 0 l)
Turn-IsCycle (advance l) v = next_live-IsCycle v l
Turn-IsCycle (back front p l n) v = move_back-IsCycle v front p l n

Turns-IsCycle :
    {hooks : Hooks} {x : Cycle × Hooks} {len : ℕ} {item : ℕ → ℕ}
    → Turns hooks x len item
    → IsCycle x.0 x.1 len item
Turns-IsCycle here = record {
  apart = λ k j p q e. absurd (omega arith);
  proper = λ k p. absurd (omega arith);
  head = refl;
  previous = λ k p. absurd (omega arith);
  next = λ k p. absurd (omega arith);
}
Turns-IsCycle (after r s) = Turn-IsCycle s (Turns-IsCycle r)

-- From an empty cycle over any hooks, after any sequence of pushes, removals, pops, turns and moves
-- to the back that keeps their contracts, the cycle is exactly the sequence that the same operations
-- make of a list, a turn of it taking the first to the end: its head is the first item, or `END`
-- where there is none, every link leads to the cyclic neighbour, or is `END` in a single member, and
-- every member reads as linked.
pub cycle_refines :
    (hooks : Hooks) (x : Cycle × Hooks) (len : ℕ) (item : ℕ → ℕ)
    → Turns hooks x len item
    → IsCycle x.0 x.1 len item × ((k : ℕ) → k < len → is_linked (x.1 (item k)) (item k) ≡ true)
unfolding is_linked
cycle_refines hooks x len item r =
    let v = Turns-IsCycle r in
    (v, λ k l. ground (arith, v.proper k, v.previous k, v.apart k (k - 1), v.apart k (len - 1)))
