-- ===== src/Links/Moves.antt =====
-- Each operation of a chain does to the sequences of a family what its name says.
use o.Prelude.{
  ℕ, ◌+◌, ◌-◌, ◌<◌, ◌≡◌, ◌≢◌, inl, inr, none, ◌==◌, ltb, if◌then◌else◌, mod32, arith, Bool-cases,
}
use o.Links.{Hooks, Chain, end, update, link_back, unlink, chain_pop, append}
use o.Links.Order.{World, Order, IsLinked, Absent, pushed, removed, joined, with_chain}

pub link_back-IsLinked :
    (w : World) (o : Order) (c i : ℕ)
    → IsLinked w o
    → Absent o i
    → i < end
    → o.len c < end
    → IsLinked (with_chain w c (link_back (w.chains c) w.hooks i)) (pushed o c i)
unfolding link_back
link_back-IsLinked w o c i v a l m = record {
  apart = λ d e k j p q r. ground (
    arith,
    v.apart d e k j,
    v.apart c e k j,
    v.apart d c k j,
    v.apart c c k j,
    a d k,
    a e j,
    a c k,
    a c j,
  );
  proper = λ d k p. ground (arith, v.proper d k, v.proper c k);
  head = λ d. ground (arith, v.head d, v.head c, v.tail c, v.proper c (o.len c - 1));
  tail = λ d. ground (arith, v.tail d);
  previous = λ d k p.
      ground
        (arith, v.previous d k, v.tail c, v.proper c (o.len c - 1), a d k, v.previous c k, a c k);
  next = λ d k p. ground (
    arith,
    v.next d k,
    v.next c k,
    v.tail c,
    v.proper c (o.len c - 1),
    v.apart d c k (o.len c - 1),
    v.apart c c k (o.len c - 1),
    a d k,
    a c k,
  );
  count = λ d. ground (arith, v.count d, v.count c);
}

pub unlink-IsLinked :
    (w : World) (o : Order) (c p : ℕ)
    → IsLinked w o
    → p < o.len c
    → o.len c < mod32
    → IsLinked (with_chain w c (unlink (w.chains c) w.hooks (o.item c p))) (removed o c p)
unfolding unlink
unlink-IsLinked w o c p v l m = record {
  apart = λ d e k j q r. ground (
    arith,
    v.apart d e k j,
    v.apart d e (k + 1) j,
    v.apart d e k (j + 1),
    v.apart d e (k + 1) (j + 1),
    v.apart c e k j,
    v.apart c e (k + 1) j,
    v.apart d c k j,
    v.apart d c k (j + 1),
  );
  proper =
      λ d k q. ground (arith, v.proper d k, v.proper d (k + 1), v.proper c k, v.proper c (k + 1));
  head = λ d. ground (
    arith,
    v.head d,
    v.head c,
    v.previous c p,
    v.next c p,
    v.proper c (p - 1),
    v.proper c (p + 1),
  );
  tail = λ d. ground (
    arith,
    v.tail d,
    v.tail c,
    v.previous c p,
    v.next c p,
    v.proper c (p - 1),
    v.proper c (p + 1),
  );
  previous = λ d k q. ground (
    arith,
    v.previous d k,
    v.previous c k,
    v.previous c (k + 1),
    v.previous c p,
    v.next c p,
    v.proper c (p - 1),
    v.proper c (p + 1),
    v.apart d c k (p - 1),
    v.apart d c k (p + 1),
    v.apart c c k (p - 1),
    v.apart c c k (p + 1),
    v.apart c c (k + 1) (p - 1),
    v.apart c c (k + 1) (p + 1),
  );
  next = λ d k q. ground (
    arith,
    v.next d k,
    v.next c k,
    v.next c (k + 1),
    v.previous c p,
    v.next c p,
    v.proper c (p - 1),
    v.proper c (p + 1),
    v.apart d c k (p - 1),
    v.apart d c k (p + 1),
    v.apart c c k (p - 1),
    v.apart c c k (p + 1),
    v.apart c c (k + 1) (p - 1),
    v.apart c c (k + 1) (p + 1),
  );
  count = λ d. ground (arith, v.count d, v.count c);
}

pub chain_pop-IsLinked :
    (w : World) (o : Order) (c : ℕ)
    → IsLinked w o
    → 0 < o.len c
    → o.len c < mod32
    → IsLinked (with_chain w c (chain_pop (w.chains c) w.hooks (o.item c 0))) (removed o c 0)
unfolding chain_pop
chain_pop-IsLinked w o c v l m = record {
  apart = λ d e k j q r. ground (
    arith,
    v.apart d e k j,
    v.apart d e (k + 1) j,
    v.apart d e k (j + 1),
    v.apart d e (k + 1) (j + 1),
    v.apart c e (k + 1) j,
    v.apart d c k (j + 1),
  );
  proper = λ d k q. ground (arith, v.proper d k, v.proper c (k + 1));
  head = λ d. ground (arith, v.head d, v.next c 0, v.proper c 1);
  tail = λ d. ground (arith, v.tail d, v.tail c, v.next c 0, v.proper c 1);
  previous = λ d k q. ground (
    arith,
    v.previous d k,
    v.previous c (k + 1),
    v.next c 0,
    v.proper c 1,
    v.apart d c k 1,
    v.apart c c (k + 1) 1,
  );
  next = λ d k q. ground (
    arith,
    v.next d k,
    v.next c (k + 1),
    v.next c 0,
    v.proper c 1,
    v.apart d c k 1,
    v.apart c c (k + 1) 1,
  );
  count = λ d. ground (arith, v.count d, v.count c);
}

-- `append` is of chains that store no count.
abbrev pub with_chains : World → (t s : ℕ) → Chain × Chain × Hooks → World
with_chains w t s (target, source, hooks) = record {
  chains = update (update w.chains t target) s source;
  hooks = hooks;
}

-- What `append` leaves as the next word of a hook.
append_hook :
    (target source : Chain) (hooks : Hooks) (x : ℕ)
    → ((append target source hooks).2 x).next ≡ (
        if target.tail == end
        then (hooks x).next
        else if target.tail == x
        then source.head
        else (hooks x).next)
unfolding append
append_hook target source hooks x = ground arith

append-next :
    (w : World) (o : Order) (t s d k : ℕ)
    → IsLinked w o
    → t ≢ s
    → 0 < o.len s
    → k < (joined o t s).len d
    → ((append (w.chains t) (w.chains s) w.hooks).2 ((joined o t s).item d k)).next
      ≡ (if k + 1 == (joined o t s).len d then end else (joined o t s).item d (k + 1))
append-next w o t s d k v n l q = elim (Bool-cases (t == d)) [
  | inr e ↦ ground (
    arith,
    append_hook (w.chains t) (w.chains s) w.hooks (o.item d k),
    v.next d k,
    v.tail t,
    v.apart d t k (o.len t - 1),
  )
  | inl e ↦ elim (Bool-cases (ltb k (o.len t))) [
    | inl b ↦ ground (
      arith,
      append_hook (w.chains t) (w.chains s) w.hooks (o.item t k),
      v.next t k,
      v.tail t,
      v.head s,
      v.proper t (o.len t - 1),
      v.apart t t k (o.len t - 1),
    )
    | inr b ↦ ground (
      arith,
      append_hook (w.chains t) (w.chains s) w.hooks (o.item s (k - o.len t)),
      v.next s (k - o.len t),
      v.tail t,
      v.apart s t (k - o.len t) (o.len t - 1),
    )
  ]
]

pub append-IsLinked :
    (w : World) (o : Order) (t s : ℕ)
    → IsLinked w o
    → t ≢ s
    → 0 < o.len s
    → (w.chains t).count ≡ none
    → (w.chains s).count ≡ none
    → IsLinked (with_chains w t s (append (w.chains t) (w.chains s) w.hooks)) (joined o t s)
unfolding append
append-IsLinked w o t s v n l f g = record {
  apart = λ d e k j q r. ground (
    arith,
    v.apart d e k j,
    v.apart t e k j,
    v.apart s e (k - o.len t) j,
    v.apart d t k j,
    v.apart d s k (j - o.len t),
    v.apart t t k j,
    v.apart t s k (j - o.len t),
    v.apart s t (k - o.len t) j,
    v.apart s s (k - o.len t) (j - o.len t),
  );
  proper = λ d k q. ground (arith, v.proper d k, v.proper t k, v.proper s (k - o.len t));
  head = λ d. ground (arith, v.head d, v.head t, v.head s, v.tail t, v.proper t (o.len t - 1));
  tail = λ d. ground (arith, v.tail d, v.tail s, v.tail t);
  previous = λ d k q. ground (
    arith,
    v.previous d k,
    v.previous t k,
    v.previous s (k - o.len t),
    v.tail t,
    v.head s,
    v.proper t (o.len t - 1),
    v.proper s 0,
    v.apart d t k (o.len t - 1),
    v.apart d s k 0,
    v.apart t t k (o.len t - 1),
    v.apart t s k 0,
    v.apart s t (k - o.len t) (o.len t - 1),
    v.apart s s (k - o.len t) 0,
  );
  next = λ d k q. append-next w o t s d k v n l q;
  count = λ d. ground (arith, v.count d, f, g);
}
