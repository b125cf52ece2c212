-- ===== src/Links/Chains.antt =====
-- Whole histories of a family of chains, against sequences of indices.
use mathlib.Core.Path.{fun_ext}
use o.Prelude.{
  injective_le, ◌≤◌, ℕ, ◌+◌, ◌-◌, ◌<◌, ◌≡◌, ◌≢◌, ◌⊎◌, inl, inr, refl, sym, ap, ◌∙◌, Bool, true,
  false, none, some, ◌==◌, if◌then◌else◌, mod32, arith, Bool-cases,
}
use o.Links.{
  Hooks, Chain, end, first, last, is_empty, new_chain, link_back, unlink, chain_pop, append,
  move_back, endpoint_push, is_linked, is_vacant,
}
use o.Links.Order.{World, Order, IsLinked, Absent, pushed, removed, joined, with_chain}
use o.Links.Moves.{
  link_back-IsLinked, unlink-IsLinked, chain_pop-IsLinked, append-IsLinked, with_chains,
}

-- A sequence is no longer than there are indices, and shorter while one is in none.
pub len-bound : (w : World) (o : Order) (c : ℕ) → IsLinked w o → o.len c ≤ end
len-bound w o c v =
    injective_le end (o.len c) (o.item c) (λ k l. v.proper c k l)
      (λ i j h k n e. ground (arith, v.apart c c i j))

pub room : (w : World) (o : Order) (c i : ℕ) → IsLinked w o → Absent o i → i < end → o.len c < end
room w o c i v a l =
    let more =
      injective_le end (o.len c + 1) (λ k. if k == o.len c then i else o.item c k)
        (λ k h. ground (arith, v.proper c k))
        (λ k j h m n e. ground (arith, v.apart c c k j, a c k, a c j)) in
    omega (arith, more)

pair_path {ℓ κ} :
    {A : Type ℓ} {B : Type κ} {a b : A} {c d : B} → a ≡ b → c ≡ d → ◌≡◌ {A = A × B} (a, c) (b, d)
pair_path p q = λ i. (p i, q i)

-- On a chain that stores no count, a push at the back endpoint beside the last is `link_back`.
endpoint_push-back :
    (chain : Chain) (hooks : Hooks) (index : ℕ)
    → chain.count ≡ none
    → endpoint_push false true chain hooks index (last chain) ≡ link_back chain hooks index
unfolding link_back last
endpoint_push-back chain hooks index e = elim (Bool-cases (chain.tail == end)) [
  | inl t ↦ pair_path (ground (arith, e, t)) (fun_ext (λ j. ground (arith, t)))
  | inr t ↦ pair_path (ground (arith, e, t)) (fun_ext (λ j. ground (arith, t)))
]

-- After an unlink of another index than its tail, a chain has the tail that it had.
unlink-last :
    (w : World) (o : Order) (s t p : ℕ)
    → IsLinked w o
    → p < o.len s
    → o.len s < mod32
    → (t ≢ s) ⊎ (p + 1 < o.len s)
    → last ((with_chain w s (unlink (w.chains s) w.hooks (o.item s p))).chains t)
      ≡ last (w.chains t)
unfolding last
unlink-last w o s t p v l m n =
    let v' = unlink-IsLinked w o s p v l m in ground (arith, v'.tail t, v.tail t)

unlink-bare :
    (w : World) (s t i : ℕ)
    → (w.chains s).count ≡ none
    → (w.chains t).count ≡ none
    → ((with_chain w s (unlink (w.chains s) w.hooks i)).chains t).count ≡ none
unfolding unlink
unlink-bare w s t i f g = ground (arith, f, g)

-- The index of an offset is absent once that is removed.
pub removed-Absent :
    (w : World) (o : Order) (s p : ℕ)
    → IsLinked w o
    → p < o.len s
    → Absent (removed o s p) (o.item s p)
removed-Absent w o s p v l c k q e =
    ground (arith, v.apart c s k p, v.apart s s k p, v.apart s s (k + 1) p)

from_equal :
    (w : World) (o : Order) (c : ℕ) {a b : Chain × Hooks}
    → a ≡ b
    → IsLinked (with_chain w c b) o
    → IsLinked (with_chain w c a) o
from_equal w o c e v = rw e v

abbrev pub with_family : (ℕ → Chain) × Hooks → World
with_family (chains, hooks) = record { chains = chains; hooks = hooks }

pub move_back-IsLinked :
    (w : World) (o : Order) (s t p : ℕ)
    → IsLinked w o
    → p < o.len s
    → (w.chains s).count ≡ none
    → (w.chains t).count ≡ none
    → (t ≢ s) ⊎ (p + 1 < o.len s)
    → IsLinked
        (with_family (move_back w.chains w.hooks s t (o.item s p)))
        (pushed (removed o s p) t (o.item s p))
unfolding move_back
move_back-IsLinked w o s t p v l f g n =
    let m : o.len s < mod32 = omega (arith, len-bound w o s v) in
    let w' = with_chain w s (unlink (w.chains s) w.hooks (o.item s p)) in
    let v' = unlink-IsLinked w o s p v l m in
    let same = unlink-last w o s t p v l m n in
    let bare : (w'.chains t).count ≡ none = unlink-bare w s t (o.item s p) f g in
    let back = endpoint_push-back (w'.chains t) w'.hooks (o.item s p) bare in
    let i = o.item s p in
    let whole : endpoint_push false true (w'.chains t) w'.hooks i (last (w.chains t))
        ≡ link_back (w'.chains t) w'.hooks i =
      ap (λ a. endpoint_push false true (w'.chains t) w'.hooks i a) (sym same) ∙ back in
    from_equal w' (pushed (removed o s p) t i) t whole (
      link_back-IsLinked w' (removed o s p) t i v' (removed-Absent w o s p v l) (v.proper s p l)
        (room w' (removed o s p) t i v' (removed-Absent w o s p v l) (v.proper s p l)))

-- What the owner of a family can do, each operation under its safety contract, on the sequences too.
-- A family of chains that count, or do not, as each was made.
pub data Step (w : World) (o : Order) : World → Order → Type 0 where
  push :
      (c i : ℕ)
      → Absent o i
      → i < end
      → Step w o (with_chain w c (link_back (w.chains c) w.hooks i)) (pushed o c i)
  take_out :
      (c p : ℕ)
      → p < o.len c
      → Step w o (with_chain w c (unlink (w.chains c) w.hooks (o.item c p))) (removed o c p)
  pop :
      (c : ℕ)
      → 0 < o.len c
      → Step w o (with_chain w c (chain_pop (w.chains c) w.hooks (o.item c 0))) (removed o c 0)
  splice :
      (t s : ℕ)
      → t ≢ s
      → 0 < o.len s
      → (w.chains t).count ≡ none
      → (w.chains s).count ≡ none
      → Step w o (with_chains w t s (append (w.chains t) (w.chains s) w.hooks)) (joined o t s)
  move :
      (s t p : ℕ)
      → p < o.len s
      → (w.chains s).count ≡ none
      → (w.chains t).count ≡ none
      → (t ≢ s) ⊎ (p + 1 < o.len s)
      → Step w o
          (with_family (move_back w.chains w.hooks s t (o.item s p)))
          (pushed (removed o s p) t (o.item s p))

pub data Reach (w : World) (o : Order) : World → Order → Type 0 where
  here : Reach w o w o
  after :
      {w' w'' : World} {o' o'' : Order} → Reach w o w' o' → Step w' o' w'' o'' → Reach w o w'' o''

Step-IsLinked :
    {w : World} {o : Order} {w' : World} {o' : Order}
    → Step w o w' o'
    → IsLinked w o
    → IsLinked w' o'
Step-IsLinked {w} {o = o} (push c i a l) v = link_back-IsLinked w o c i v a l (room w o c i v a l)
Step-IsLinked {w} {o = o} (take_out c p l) v =
    unlink-IsLinked w o c p v l (omega (arith, len-bound w o c v))
Step-IsLinked {w} {o = o} (pop c l) v =
    chain_pop-IsLinked w o c v l (omega (arith, len-bound w o c v))
Step-IsLinked {w} {o = o} (splice t s n l f g) v = append-IsLinked w o t s v n l f g
Step-IsLinked {w} {o = o} (move s t p l f g n) v = move_back-IsLinked w o s t p v l f g n

Reach-IsLinked :
    {w : World} {o : Order} {w' : World} {o' : Order}
    → Reach w o w' o'
    → IsLinked w o
    → IsLinked w' o'
Reach-IsLinked here v = v
Reach-IsLinked (after r s) v = Step-IsLinked s (Reach-IsLinked r v)

-- New chains, the named ones with a count of their own, and hooks that hold anything.
abbrev pub fresh : (ℕ → Bool) → Hooks → World
fresh counted hooks = record {
  chains = λ c. new_chain (if counted c then some 0 else none);
  hooks = hooks;
}

abbrev pub vacant : Order
vacant = record { len = λ c. 0; item = λ c k. 0 }

fresh-IsLinked : (counted : ℕ → Bool) (hooks : Hooks) → IsLinked (fresh counted hooks) vacant
unfolding new_chain
fresh-IsLinked counted hooks = record {
  apart = λ c d k j p q r. absurd (omega arith);
  proper = λ c k p. absurd (omega arith);
  head = λ c. refl;
  tail = λ c. refl;
  previous = λ c k p. absurd (omega arith);
  next = λ c k p. absurd (omega arith);
  count = λ c. ground arith;
}

-- From new chains over any hooks, after any sequence of pushes, removals, pops, splices and moves,
-- within one chain too, that keeps their contracts, the chains are exactly the sequences that the
-- same operations make of lists: links and endpoints of each lead to its neighbours, its first, last
-- and emptiness are those of the sequence, a stored count is its length, and every member reads as
-- linked and not as vacant.
pub chains_refine :
    (counted : ℕ → Bool) (hooks : Hooks) (w : World) (o : Order)
    → Reach (fresh counted hooks) vacant w o
    → IsLinked w o
      × ((c : ℕ) → first (w.chains c) ≡ (if o.len c == 0 then none else some (o.item c 0)))
      × ((c : ℕ)
          → last (w.chains c) ≡ (if o.len c == 0 then none else some (o.item c (o.len c - 1))))
      × ((c : ℕ) → is_empty (w.chains c) ≡ (o.len c == 0))
      × ((c k : ℕ)
          → k < o.len c
          → (is_linked (w.hooks (o.item c k)) (o.item c k) ≡ true)
            × (is_vacant (w.hooks (o.item c k)) (o.item c k) ≡ false))
unfolding first last is_empty is_linked is_vacant
chains_refine counted hooks w o r =
    let v = Reach-IsLinked r (fresh-IsLinked counted hooks) in
    (
      v,
      λ c. ground (arith, v.head c, v.proper c 0),
      λ c. ground (arith, v.tail c, v.proper c (o.len c - 1)),
      λ c. ground (arith, v.head c, v.proper c 0),
      λ c k l. (
        ground (arith, v.previous c k, v.proper c k, v.apart c c k (k - 1)),
        ground (arith, v.previous c k, v.proper c k, v.apart c c k (k - 1)),
      ),
    )
