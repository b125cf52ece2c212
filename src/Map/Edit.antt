-- ===== src/Map/Edit.antt =====
-- src/depot/map/raw: the member scan and what changes a directory.
use Prim.Native.Nat.{bit_and}
use o.Prelude.{
  ℕ, zero, suc, ◌+◌, ◌-◌, Bool, true, false, Option, none, some, ltb, if◌then◌else◌, mod64,
  wrapping_sub,
}
use o.Map.{Table, hit, gap, skip, candidate, hash_at, empty_control, tag, mask, start}
use o.Links.{update}

-- `raw::member`, from an index on
unfoldable pub member_from {ℓ} :
    {P : Type ℓ} → Table P → (hash : ℕ) → (ℕ → Bool) → (fuel index : ℕ) → Option ℕ
member_from self hash matches zero index = none
member_from self hash matches (suc fuel) index =
    let later = member_from self hash matches fuel (bit_and (index + 1) (mask self.buckets)) in
    elim (candidate self index hash) as (λ x. Option ℕ) [
      | hit ↦ if matches index then some index else later
      | gap ↦ later
      | skip ↦ later
    ]

unfoldable pub member {ℓ} : {P : Type ℓ} → Table P → (hash : ℕ) → (ℕ → Bool) → Option ℕ
unfolding member_from start
member self hash matches = member_from self hash matches self.buckets (start self hash)

-- `Table::insert`
unfoldable pub insert {ℓ} : {P : Type ℓ} → Table P → (bucket hash : ℕ) → P → Table P
insert self bucket hash payload = record self {
  hashes = update self.hashes bucket hash;
  payloads = update self.payloads bucket payload;
  controls = update self.controls bucket (tag hash);
}

-- `Table::shift`; the payload that leaves its bucket stays there as bits.
unfoldable pub shift {ℓ} : {P : Type ℓ} → Table P → (hole next hash : ℕ) → Table P
shift self hole next hash = record self {
  hashes = update self.hashes hole hash;
  payloads = update self.payloads hole (self.payloads next);
  controls = update (update self.controls hole (self.controls next)) next empty_control;
}

-- `raw::close` from a hole and the bucket to look at next: where the source leaves the inner loop for
-- the outer, the next bucket is the new hole's.
unfoldable pub close_from {ℓ} : {P : Type ℓ} → Table P → (fuel hole next : ℕ) → Option (Table P)
unfolding shift
close_from {P = P} self zero hole next = none
close_from {P = P} self (suc fuel) hole next =
    let mask = self.buckets - 1 in
    elim (hash_at self next) as (λ x. Option (Table P)) [
      | none ↦ some self
      | some hash ↦
          let home = bit_and hash mask in
          let to_next = bit_and (wrapping_sub mod64 next home) mask in
          let to_hole = bit_and (wrapping_sub mod64 hole home) mask in
          elim (ltb to_hole to_next) as (λ x. Option (Table P)) [
            | true ↦ close_from (shift self hole next hash) fuel next (bit_and (next + 1) mask)
            | false ↦ close_from self fuel hole (bit_and (next + 1) mask)
          ]
    ]

-- `Hole::close`, and `Hole::remove` with the payload that it returns
unfoldable pub close {ℓ} : {P : Type ℓ} → Table P → ℕ → Option (Table P)
unfolding close_from
close self bucket =
    let mask = self.buckets - 1 in
    close_from (record self { controls = update self.controls bucket empty_control }) self.buckets
      bucket (bit_and (bucket + 1) mask)

unfoldable pub remove {ℓ} : {P : Type ℓ} → Table P → ℕ → Option (Table P × P)
unfolding close
remove {P = P} self bucket = elim (close self bucket) as (λ x. Option (Table P × P)) [
  | none ↦ none
  | some after ↦ some (after, self.payloads bucket)
]

-- `Table::clear`, its two ways to the same planes
abbrev pub clear {ℓ} : {P : Type ℓ} → Table P → Table P
clear self = record self {
  controls = λ i. if ltb i self.buckets then empty_control else self.controls i;
}
