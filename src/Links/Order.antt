-- ===== src/Links/Order.antt =====
-- What a family of chains over one store of hooks stands for: a sequence of indices for each.
use o.Prelude.{ℕ, ◌+◌, ◌-◌, ◌<◌, ◌≡◌, ◌≢◌, ◌⊎◌, none, some, ◌==◌, ltb, if◌then◌else◌}
use o.Links.{Hooks, Chain, end, update}

-- The sequences of a family: the length of each, and its item at each offset.
pub record Order : Type 0 where
  pub len : ℕ → ℕ
  pub item : ℕ → ℕ → ℕ

pub record World : Type 0 where
  pub chains : ℕ → Chain
  pub hooks : Hooks

-- No sequence has an index.
abbrev pub Absent : Order → ℕ → Type 0
Absent o i = (c k : ℕ) → k < o.len c → o.item c k ≢ i

-- Chains and hooks with exactly these sequences: the items of all are distinct and are not `END`,
-- endpoints are first and last, and links lead to the neighbours.
pub record IsLinked (w : World) (o : Order) : Type 0 where
  pub apart :
      (c d k j : ℕ) → k < o.len c → j < o.len d → o.item c k ≡ o.item d j → (c ≡ d) × (k ≡ j)
  pub proper : (c k : ℕ) → k < o.len c → o.item c k < end
  pub head : (c : ℕ) → (w.chains c).head ≡ (if o.len c == 0 then end else o.item c 0)
  pub tail : (c : ℕ) → (w.chains c).tail ≡ (if o.len c == 0 then end else o.item c (o.len c - 1))
  pub previous :
      (c k : ℕ)
      → k < o.len c
      → (w.hooks (o.item c k)).previous ≡ (if k == 0 then end else o.item c (k - 1))
  pub next :
      (c k : ℕ)
      → k < o.len c
      → (w.hooks (o.item c k)).next ≡ (if k + 1 == o.len c then end else o.item c (k + 1))
  pub count : (c : ℕ) → ((w.chains c).count ≡ none) ⊎ ((w.chains c).count ≡ some (o.len c))

-- The sequences after an insertion at the back, and after a removal at an offset.
abbrev pub pushed : Order → ℕ → ℕ → Order
pushed o c i = record {
  len = update o.len c (o.len c + 1);
  item = update o.item c (λ k. if k == o.len c then i else o.item c k);
}

abbrev pub removed : Order → ℕ → ℕ → Order
removed o c p = record {
  len = update o.len c (o.len c - 1);
  item = update o.item c (λ k. if ltb k p then o.item c k else o.item c (k + 1));
}

-- The source's sequence behind the target's, and the source empty.
abbrev pub joined : Order → ℕ → ℕ → Order
joined o t s = record {
  len = update (update o.len t (o.len t + o.len s)) s 0;
  item = update o.item t (λ k. if ltb k (o.len t) then o.item t k else o.item s (k - o.len t));
}

abbrev pub with_chain : World → ℕ → Chain × Hooks → World
with_chain w c (chain, hooks) = record { chains = update w.chains c chain; hooks = hooks }
