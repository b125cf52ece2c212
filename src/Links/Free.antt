-- ===== src/Links/Free.antt =====
-- src/depot/queue/links/free.rs: the free list against a stack of indices.
use o.Prelude.{
  ℕ, ◌<◌, ◌≡◌, ◌≢◌, true, false, Option, none, some, ◌==◌, mod32, arith, refl, List, [], ◌∷◌,
}
use o.Links.{Hook, Hooks, end, update, acquire_at, acquire_raw, recycle, is_vacant}

-- No index of the list is this one.
abbrev pub Lacks : List ℕ → ℕ → Type 0
Lacks [] i = Unit {0}
Lacks (x ∷ xs) i = (x ≢ i) × Lacks xs i

-- A head word and hooks whose vacant chain is this stack, of distinct indices below a bound.
abbrev pub IsFree : (bound free : ℕ) → Hooks → List ℕ → Type 0
IsFree bound free hooks [] = free ≡ end
IsFree bound free hooks (x ∷ xs) =
    (free ≡ x)
    × (x < bound)
    × ((hooks x).previous ≡ x)
    × Lacks xs x
    × IsFree bound (hooks x).next hooks xs

-- A hook outside the stack may change.
pub IsFree-update :
    (bound free : ℕ) (hooks : Hooks) (i : ℕ) (h : Hook) (xs : List ℕ)
    → Lacks xs i
    → IsFree bound free hooks xs
    → IsFree bound free (update hooks i h) xs
IsFree-update bound free hooks i h [] l v = v
IsFree-update bound free hooks i h (x ∷ xs) (d, l) (e, b, p, a, v) =
    let other : update hooks i h x ≡ hooks x = ground (arith, d) in
    (e, b, rw other p, a, rw other (IsFree-update bound (hooks x).next hooks i h xs l v))

-- What an acquisition from a stack comes to.
pub data Acquired (bound : ℕ) (hooks : Hooks) : List ℕ → Option ℕ × (ℕ × Hooks) → Type 0 where
  exhausted : (free : ℕ) → free ≡ end → Acquired bound hooks [] (none, (free, hooks))
  popped :
      (x : ℕ) (xs : List ℕ) (free : ℕ) (rest : Hooks)
      → IsFree bound free rest xs
      → is_vacant (rest x) x ≡ true
      → ((j : ℕ) → j ≢ x → rest j ≡ hooks j)
      → Acquired bound hooks (x ∷ xs) (some x, (free, rest))

pub acquire_raw-Acquired :
    (bound free : ℕ) (hooks : Hooks) (xs : List ℕ)
    → bound < mod32
    → IsFree bound free hooks xs
    → Acquired bound hooks xs (acquire_raw free hooks)
unfolding acquire_raw acquire_at is_vacant
acquire_raw-Acquired bound free hooks [] c v = rw v (exhausted end refl)
acquire_raw-Acquired bound free hooks (x ∷ xs) c (e, b, p, a, v) =
    let there : (x == end) ≡ false = ground (arith, b, c) in
    rw (acquire_raw, e, there)
      (popped x xs (hooks x).next _ (IsFree-update bound (hooks x).next hooks x _ xs a v)
        (ground (arith, p, b, c)) (λ j d. ground (arith, d)))

pub recycle-IsFree :
    (bound free : ℕ) (hooks : Hooks) (i : ℕ) (xs : List ℕ)
    → i < bound
    → Lacks xs i
    → IsFree bound free hooks xs
    → let (free', rest) = recycle free hooks i in IsFree bound free' rest (i ∷ xs)
unfolding recycle
recycle-IsFree bound free hooks i xs l a v =
    let at : update hooks i (record { previous = i; next = free }) i
        ≡ record { previous = i; next = free } =
      ground arith in
    (refl, l, rw at refl, a, rw at (IsFree-update bound free hooks i _ xs a v))

-- What the owner of a free list can do under its contracts: acquire, use a hook that is not free, and
-- recycle one; on the stack too.
pub data Step (bound : ℕ) : ℕ × Hooks → List ℕ → ℕ × Hooks → List ℕ → Type 0 where
  acquire :
      (free : ℕ) (hooks : Hooks) (x : ℕ) (xs : List ℕ)
      → Step bound (free, hooks) (x ∷ xs) (acquire_raw free hooks).1 xs
  touch :
      (free : ℕ) (hooks : Hooks) (xs : List ℕ) (i : ℕ) (h : Hook)
      → Lacks xs i
      → Step bound (free, hooks) xs (free, update hooks i h) xs
  give_back :
      (free : ℕ) (hooks : Hooks) (xs : List ℕ) (i : ℕ)
      → i < bound
      → Lacks xs i
      → Step bound (free, hooks) xs (recycle free hooks i) (i ∷ xs)

pub data Steps (bound : ℕ) (a : ℕ × Hooks) (xs : List ℕ) : ℕ × Hooks → List ℕ → Type 0 where
  here : Steps bound a xs a xs
  after :
      {b c : ℕ × Hooks} {ys zs : List ℕ}
      → Steps bound a xs b ys
      → Step bound b ys c zs
      → Steps bound a xs c zs

Acquired-IsFree :
    {bound : ℕ} {hooks : Hooks} {x : ℕ} {xs : List ℕ} {r : Option ℕ × (ℕ × Hooks)}
    → Acquired bound hooks (x ∷ xs) r
    → IsFree bound r.1.0 r.1.1 xs
Acquired-IsFree (popped x xs free rest v a f) = v

module _ (bound : ℕ) (l : bound < mod32) where
  Step-IsFree :
      {a b : ℕ × Hooks} {xs ys : List ℕ}
      → Step bound a xs b ys
      → IsFree bound a.0 a.1 xs
      → IsFree bound b.0 b.1 ys
  Step-IsFree (acquire free hooks x xs) v =
      Acquired-IsFree (acquire_raw-Acquired bound free hooks (x ∷ xs) l v)
  Step-IsFree (touch free hooks xs i h a) v = IsFree-update bound free hooks i h xs a v
  Step-IsFree (give_back free hooks xs i m a) v = recycle-IsFree bound free hooks i xs m a v

  Steps-IsFree :
      {a : ℕ × Hooks} {xs : List ℕ} {b : ℕ × Hooks} {ys : List ℕ}
      → IsFree bound a.0 a.1 xs
      → Steps bound a xs b ys
      → IsFree bound b.0 b.1 ys
  Steps-IsFree v here = v
  Steps-IsFree v (after r s) = Step-IsFree s (Steps-IsFree v r)

-- A free list over fewer than 2 ^ 32 hooks is a stack of distinct indices: after any sequence of
-- acquisitions, recyclings and writes to hooks that are not free, its vacant chain is the stack that
-- the same operations make, and an acquisition answers nothing exactly from an empty stack, and else
-- takes the top, leaves its hook vacant and no other hook changed.
pub IsFree-refines :
    (bound : ℕ) (a b : ℕ × Hooks) (xs ys : List ℕ)
    → bound < mod32
    → IsFree bound a.0 a.1 xs
    → Steps bound a xs b ys
    → IsFree bound b.0 b.1 ys × Acquired bound b.1 ys (acquire_raw b.0 b.1)
IsFree-refines bound a b xs ys l v r =
    let w = Steps-IsFree bound l v r in (w, acquire_raw-Acquired bound b.0 b.1 ys l w)
