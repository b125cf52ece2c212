-- ===== src/Lanes/Frame.antt =====
-- The operations of one topology leave the others of the store as they are.
use o.Prelude.{ℕ, ◌+◌, ◌-◌, ◌<◌, ◌≡◌, ◌≢◌, refl, List, [], ◌∷◌, arith}
use o.Links.{Hooks, link_back, unlink, chain_pop}
use o.Links.Order.{World, Order, IsLinked, Absent}
use o.Links.Free.{IsFree, Lacks}

-- Chains depend on the hooks of their members only.
pub agree-IsLinked :
    (w : World) (o : Order) (hooks : Hooks)
    → IsLinked w o
    → ((c k : ℕ) → k < o.len c → hooks (o.item c k) ≡ w.hooks (o.item c k))
    → IsLinked (record { chains = w.chains; hooks = hooks }) o
agree-IsLinked w o hooks v a = record {
  apart = v.apart;
  proper = v.proper;
  head = v.head;
  tail = v.tail;
  previous = λ c k l. rw (a c k l) (v.previous c k l);
  next = λ c k l. rw (a c k l) (v.next c k l);
  count = v.count;
}

-- A free list depends on its hooks only.
pub agree-IsFree :
    (bound free : ℕ) (hooks hooks' : Hooks) (xs : List ℕ)
    → ((j : ℕ) → (Lacks xs j → ⊥) → hooks' j ≡ hooks j)
    → IsFree bound free hooks xs
    → IsFree bound free hooks' xs
agree-IsFree bound free hooks hooks' [] a v = v
agree-IsFree bound free hooks hooks' (x ∷ xs) a (e, b, p, l, v) =
    let same = a x (λ (d, m). d refl) in
    let rest = agree-IsFree bound (hooks x).next hooks hooks' xs (λ j m. a j (λ (d, n). m n)) v in
    (e, b, rw same p, l, rw same rest)

module _ (w : World) (o : Order) (v : IsLinked w o) (c j : ℕ) (a : Absent o j) where
  pub link_back_frame : (i : ℕ) → i ≢ j → (link_back (w.chains c) w.hooks i).1 j ≡ w.hooks j
  unfolding link_back
  link_back_frame i d = ground (arith, d, v.tail c, v.proper c (o.len c - 1), a c (o.len c - 1))

  pub unlink_frame :
      (p : ℕ) → p < o.len c → (unlink (w.chains c) w.hooks (o.item c p)).1 j ≡ w.hooks j
  unfolding unlink
  unlink_frame p l = ground (
    arith,
    v.previous c p,
    v.next c p,
    v.proper c (p - 1),
    v.proper c (p + 1),
    a c (p - 1),
    a c (p + 1),
  )

  pub chain_pop_frame : 0 < o.len c → (chain_pop (w.chains c) w.hooks (o.item c 0)).1 j ≡ w.hooks j
  unfolding chain_pop
  chain_pop_frame l = ground (arith, v.next c 0, v.proper c 1, a c 1)
