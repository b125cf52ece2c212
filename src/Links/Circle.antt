-- ===== src/Links/Circle.antt =====
-- src/depot/queue/links/cycle.rs: one circular order, whose single member has `END` on both sides.
pub mod Turns
use o.Prelude.{
  ℕ, ◌+◌, ◌-◌, ◌<◌, ◌≡◌, ◌≢◌, Bool, true, false, Option, none, some, ltb, ◌==◌, ◌||◌, if◌then◌else◌,
  mod32, arith, Bool-cases, inl, inr, ◌⊎◌, ◌↔◌, sym,
}
use o.Links.{Hook, Hooks, end, update, decode, set_previous, set_next}

-- `Cycle`, its head word
abbrev pub Cycle : Type 0
Cycle = ℕ

unfoldable pub next_live : Cycle → Hooks → ℕ → Cycle × ℕ
next_live self hooks index =
    let next = (hooks index).next in let word = if next == end then index else next in (word, word)

unfoldable pub cycle_push : Cycle → Hooks → ℕ → Cycle × Hooks
cycle_push self hooks index =
    let first = hooks self in
    let tail = if first.previous == end then self else first.previous in
    if self == end then (index, update hooks index (record { previous = end; next = end })) else (
      self,
      set_previous
          (set_next (update hooks index (record { previous = tail; next = self })) tail index) self
          index,
    )

-- `Cycle::remove`
unfoldable pub cycle_remove : Cycle → Hooks → ℕ → Bool → Cycle × Hooks
cycle_remove self hooks index advance =
    let next = (hooks index).next in
    let previous = (hooks index).previous in
    let single = previous == next in
    let around =
      set_previous (set_next hooks previous (if single then end else next)) next
        (if single then end else previous) in
    if next == end then (end, update hooks index (record { previous = index; next = end })) else (
      if advance then next else self,
      update around index (record { previous = index; next = end }),
    )

unfoldable pub unlink_key : Cycle → Hooks → ℕ → Cycle × Hooks
unfolding cycle_remove
unlink_key self hooks index = cycle_remove self hooks index (self == index)

unfoldable pub cycle_pop : Cycle → Hooks → ℕ → Cycle × Hooks
unfolding cycle_remove
cycle_pop self hooks index = cycle_remove self hooks index true

-- `Cycle::move_back::<FRONT>`
unfoldable pub cycle_move_back : Bool → Cycle → Hooks → (index first : ℕ) → Cycle × Hooks
unfolding next_live unlink_key cycle_push
cycle_move_back front self hooks index first =
    if front || (first == index)
    then ((next_live self hooks first).0, hooks)
    else if (hooks first).previous == index
    then (self, hooks)
    else (let (cycle, rest) = unlink_key self hooks index in cycle_push cycle rest index)

-- A cycle whose order, from its head on, is the `len` items.
pub record IsCycle (self : Cycle) (hooks : Hooks) (len : ℕ) (item : ℕ → ℕ) : Type 0 where
  pub apart : (k j : ℕ) → k < len → j < len → item k ≡ item j → k ≡ j
  pub proper : (k : ℕ) → k < len → item k < end
  pub head : self ≡ (if len == 0 then end else item 0)
  pub previous :
      (k : ℕ)
      → k < len
      → (hooks (item k)).previous
        ≡ (if len == 1 then end else if k == 0 then item (len - 1) else item (k - 1))
  pub next :
      (k : ℕ)
      → k < len
      → (hooks (item k)).next
        ≡ (if len == 1 then end else if k + 1 == len then item 0 else item (k + 1))

-- The order after a turn, and without the item at an offset.
abbrev pub turned : ℕ → (ℕ → ℕ) → ℕ → ℕ
turned len item k = if k + 1 == len then item 0 else item (k + 1)

abbrev pub skipping : ℕ → (ℕ → ℕ) → ℕ → ℕ
skipping p item k = if ltb k p then item k else item (k + 1)

abbrev pub ending : ℕ → ℕ → (ℕ → ℕ) → ℕ → ℕ
ending len i item k = if k == len then i else item k

-- What a removal leaves in the hook of another index.
cycle_remove_hook :
    (self : Cycle) (hooks : Hooks) (i x : ℕ) (advance : Bool)
    → x ≢ i
    → (hooks i).next ≢ end
    → (((cycle_remove self hooks i advance).1 x).previous ≡ (
        if (hooks i).next == x
        then (if (hooks i).previous == (hooks i).next then end else (hooks i).previous)
        else (hooks x).previous))
      × (((cycle_remove self hooks i advance).1 x).next ≡ (
          if (hooks i).previous == x
          then (if (hooks i).previous == (hooks i).next then end else (hooks i).next)
          else (hooks x).next))
unfolding cycle_remove
cycle_remove_hook self hooks i x advance n m = (ground arith, ground arith)

module _ {self : Cycle} {hooks : Hooks} {len : ℕ} {item : ℕ → ℕ}
    (v : IsCycle self hooks len item) where
  pub next_live-IsCycle :
      0 < len → IsCycle (next_live self hooks (item 0)).0 hooks len (turned len item)
  unfolding next_live
  next_live-IsCycle l = record {
    apart = λ k j p q e. ground (
      arith,
      v.apart 0 (k + 1),
      v.apart 0 (j + 1),
      v.apart (k + 1) 0,
      v.apart (j + 1) 0,
      v.apart (k + 1) (j + 1),
    );
    proper = λ k p. ground (arith, v.proper 0, v.proper (k + 1));
    head = ground (arith, v.next 0, v.proper 0, v.proper 1);
    previous = λ k p. ground (arith, v.previous 0, v.previous (k + 1));
    next = λ k p. ground (arith, v.next 0, v.next (k + 1));
  }

  pub cycle_push-IsCycle :
      (i : ℕ)
      → i < end
      → ((k : ℕ) → k < len → item k ≢ i)
      → let (cycle, rest) = cycle_push self hooks i in
        IsCycle cycle rest (len + 1) (ending len i item)
  unfolding cycle_push
  cycle_push-IsCycle i l a = record {
    apart = λ k j p q e. ground (arith, v.apart k j, a k, a j);
    proper = λ k p. ground (arith, v.proper k);
    head = ground (arith, v.head, v.proper 0);
    previous = λ k p. ground (
      arith,
      v.head,
      v.previous k,
      v.previous 0,
      v.proper 0,
      v.proper (len - 1),
      a 0,
      a k,
      a (len - 1),
      v.apart k 0,
      v.apart k (len - 1),
      v.apart 0 (len - 1),
    );
    next = λ k p. ground (
      arith,
      v.head,
      v.next k,
      v.previous 0,
      v.proper 0,
      v.proper (len - 1),
      a 0,
      a k,
      a (len - 1),
      v.apart k 0,
      v.apart k (len - 1),
      v.apart 0 (len - 1),
    );
  }

  pub unlink_key-IsCycle :
      (p : ℕ)
      → p < len
      → let (cycle, rest) = unlink_key self hooks (item p) in
        IsCycle cycle rest (len - 1) (skipping p item)
  unfolding unlink_key cycle_remove
  unlink_key-IsCycle p l = record {
    apart = λ k j q r e.
        ground (arith, v.apart k j, v.apart (k + 1) j, v.apart k (j + 1), v.apart (k + 1) (j + 1));
    proper = λ k q. ground (arith, v.proper k, v.proper (k + 1));
    head = ground (arith, v.head, v.next p, v.proper 0, v.proper 1, v.proper (p + 1), v.apart 0 p);
    previous = λ k q. elim (Bool-cases (ltb k p)) [
      | inl b ↦ ground (
        arith,
        b,
        cycle_remove_hook self hooks (item p) (item k) (self == item p),
        v.previous p,
        v.next p,
        v.previous k,
        v.proper 0,
        v.proper (p + 1),
        v.apart k p,
        v.apart k 0,
        v.apart k (p + 1),
        v.apart (p - 1) (p + 1),
        v.apart (p - 1) 0,
        v.apart (len - 1) (p + 1),
      )
      | inr b ↦ ground (
        arith,
        b,
        cycle_remove_hook self hooks (item p) (item (k + 1)) (self == item p),
        v.previous p,
        v.next p,
        v.previous (k + 1),
        v.proper 0,
        v.proper (p + 1),
        v.apart (k + 1) p,
        v.apart (k + 1) 0,
        v.apart (k + 1) (p + 1),
        v.apart (p - 1) (p + 1),
        v.apart (p - 1) 0,
        v.apart (len - 1) (p + 1),
      )
    ];
    next = λ k q. elim (Bool-cases (ltb k p)) [
      | inl b ↦ ground (
        arith,
        b,
        cycle_remove_hook self hooks (item p) (item k) (self == item p),
        v.previous p,
        v.next p,
        v.next k,
        v.proper 0,
        v.proper (p + 1),
        v.apart k p,
        v.apart k (p - 1),
        v.apart k (len - 1),
        v.apart (p - 1) (p + 1),
        v.apart (p - 1) 0,
        v.apart (len - 1) (p + 1),
      )
      | inr b ↦ ground (
        arith,
        b,
        cycle_remove_hook self hooks (item p) (item (k + 1)) (self == item p),
        v.previous p,
        v.next p,
        v.next (k + 1),
        v.proper 0,
        v.proper (p + 1),
        v.apart (k + 1) p,
        v.apart (k + 1) (p - 1),
        v.apart (k + 1) (len - 1),
        v.apart (p - 1) (p + 1),
        v.apart (p - 1) 0,
        v.apart (len - 1) (p + 1),
      )
    ];
  }
