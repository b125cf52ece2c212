-- ===== src/Links/Stack.antt =====
-- src/depot/queue/links/list.rs: the list with a head only, against sequences.
use o.Prelude.{ℕ, ◌+◌, ◌-◌, ◌<◌, ◌≡◌, ◌≢◌, true, ltb, ◌==◌, if◌then◌else◌, arith, refl}
use o.Links.{Hooks, end, link_raw, unlink_raw, is_linked, is_vacant}

-- A list whose sequence is the `len` items.
pub record IsList (list : ℕ) (hooks : Hooks) (len : ℕ) (item : ℕ → ℕ) : Type 0 where
  pub apart : (k j : ℕ) → k < len → j < len → item k ≡ item j → k ≡ j
  pub proper : (k : ℕ) → k < len → item k < end
  pub head : list ≡ (if len == 0 then end else item 0)
  pub previous :
      (k : ℕ) → k < len → (hooks (item k)).previous ≡ (if k == 0 then end else item (k - 1))
  pub next :
      (k : ℕ) → k < len → (hooks (item k)).next ≡ (if k + 1 == len then end else item (k + 1))

abbrev pub leading : ℕ → (ℕ → ℕ) → ℕ → ℕ
leading i item k = if k == 0 then i else item (k - 1)

abbrev pub without : ℕ → (ℕ → ℕ) → ℕ → ℕ
without p item k = if ltb k p then item k else item (k + 1)

module _ {list : ℕ} {hooks : Hooks} {len : ℕ} {item : ℕ → ℕ} (v : IsList list hooks len item) where
  link_raw-IsList :
      (i : ℕ)
      → i < end
      → ((k : ℕ) → k < len → item k ≢ i)
      → let (list', rest) = link_raw list hooks i in IsList list' rest (len + 1) (leading i item)
  unfolding link_raw
  link_raw-IsList i l a = record {
    apart = λ k j p q e. ground (arith, v.apart (k - 1) (j - 1), a (k - 1), a (j - 1));
    proper = λ k p. ground (arith, v.proper (k - 1));
    head = ground arith;
    previous = λ k p.
        ground (arith, v.head, v.previous (k - 1), v.proper 0, a 0, a (k - 1), v.apart (k - 1) 0);
    next = λ k p.
        ground (arith, v.head, v.next (k - 1), v.proper 0, a 0, a (k - 1), v.apart (k - 1) 0);
  }

  unlink_raw-IsList :
      (p : ℕ)
      → p < len
      → let (list', rest) = unlink_raw list hooks (item p) in
        IsList list' rest (len - 1) (without p item) × (is_vacant (rest (item p)) (item p) ≡ true)
  unfolding unlink_raw is_vacant
  unlink_raw-IsList p l = (
    record {
      apart = λ k j q r e.
          ground
            (arith, v.apart k j, v.apart (k + 1) j, v.apart k (j + 1), v.apart (k + 1) (j + 1));
      proper = λ k q. ground (arith, v.proper k, v.proper (k + 1));
      head = ground (arith, v.head, v.previous p, v.next p, v.proper (p - 1), v.proper (p + 1));
      previous = λ k q. ground (
        arith,
        v.previous p,
        v.next p,
        v.proper (p - 1),
        v.proper (p + 1),
        v.previous k,
        v.previous (k + 1),
        v.apart k p,
        v.apart (k + 1) p,
        v.apart k (p - 1),
        v.apart (k + 1) (p - 1),
        v.apart k (p + 1),
        v.apart (k + 1) (p + 1),
        v.apart (p - 1) (p + 1),
      );
      next = λ k q. ground (
        arith,
        v.previous p,
        v.next p,
        v.proper (p - 1),
        v.proper (p + 1),
        v.next k,
        v.next (k + 1),
        v.apart k p,
        v.apart (k + 1) p,
        v.apart k (p - 1),
        v.apart (k + 1) (p - 1),
        v.apart k (p + 1),
        v.apart (k + 1) (p + 1),
        v.apart (p - 1) (p + 1),
      );
    },
    ground (arith, v.proper p),
  )

-- What the owner of a list can do under its contracts, on the sequence too.
pub data Edit (list : ℕ) (hooks : Hooks) (len : ℕ) (item : ℕ → ℕ)
    : ℕ × Hooks → ℕ → (ℕ → ℕ) → Type 0 where
  lead :
      (i : ℕ)
      → i < end
      → ((k : ℕ) → k < len → item k ≢ i)
      → Edit list hooks len item (link_raw list hooks i) (len + 1) (leading i item)
  drop_at :
      (p : ℕ)
      → p < len
      → Edit list hooks len item (unlink_raw list hooks (item p)) (len - 1) (without p item)

pub data Edits (hooks : Hooks) : ℕ × Hooks → ℕ → (ℕ → ℕ) → Type 0 where
  here : Edits hooks (end, hooks) 0 (λ k. k)
  after :
      {list : ℕ} {now : Hooks} {len : ℕ} {item : ℕ → ℕ} {x : ℕ × Hooks} {len' : ℕ} {item' : ℕ → ℕ}
      → Edits hooks (list, now) len item
      → Edit list now len item x len' item'
      → Edits hooks x len' item'

Edit-IsList :
    {list : ℕ} {hooks : Hooks} {len : ℕ} {item : ℕ → ℕ} {x : ℕ × Hooks} {len' : ℕ} {item' : ℕ → ℕ}
    → Edit list hooks len item x len' item'
    → IsList list hooks len item
    → IsList x.0 x.1 len' item'
Edit-IsList (lead i l a) v = link_raw-IsList v i l a
Edit-IsList (drop_at p l) v = (unlink_raw-IsList v p l).0

Edits-IsList :
    {hooks : Hooks} {x : ℕ × Hooks} {len : ℕ} {item : ℕ → ℕ}
    → Edits hooks x len item
    → IsList x.0 x.1 len item
Edits-IsList here = record {
  apart = λ k j p q e. absurd (omega arith);
  proper = λ k p. absurd (omega arith);
  head = refl;
  previous = λ k p. absurd (omega arith);
  next = λ k p. absurd (omega arith);
}
Edits-IsList (after r s) = Edit-IsList s (Edits-IsList r)

-- From an empty list over any hooks, after any sequence of insertions at the front and removals
-- anywhere that keeps their contracts, the list is exactly the sequence that the same operations make:
-- its head is the first item or `END`, links lead to the neighbours, every member reads as linked,
-- and a member that is removed next reads as vacant afterwards.
pub IsList-refines :
    (hooks : Hooks) (x : ℕ × Hooks) (len : ℕ) (item : ℕ → ℕ)
    → Edits hooks x len item
    → IsList x.0 x.1 len item
      × ((k : ℕ)
          → k < len
          → (is_linked (x.1 (item k)) (item k) ≡ true)
            × (is_vacant ((unlink_raw x.0 x.1 (item k)).1 (item k)) (item k) ≡ true))
unfolding is_linked
IsList-refines hooks x len item r =
    let v = Edits-IsList r in
    (
      v,
      λ k l. (
        ground (arith, v.proper k, v.previous k, v.apart k (k - 1)),
        (unlink_raw-IsList v k l).1,
      ),
    )
