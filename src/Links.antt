-- ===== src/Links.antt =====
-- src/depot/queue/links: indexed topologies over one store of hooks, with the mutations of
-- src/depot/raw/hooks. Cells are explicit: an operation takes and returns the chain and the hooks.
-- An `Index` that a topology handles is its `raw` number, which is not `END`; Links/Index is about
-- its representation.
pub mod Index
pub mod Order
pub mod Moves
pub mod Chains
pub mod Circle
pub mod Free
pub mod Stack
mod Examples
use o.Prelude.{
  ℕ, ◌+◌, ◌-◌, Bool, true, false, not, Option, none, some, ltb, ◌==◌, ◌&&◌, if◌then◌else◌, mod32,
  as_u32, wrapping_sub,
}

-- `Index::END`
abbrev pub end : ℕ
end = mod32 - 1

-- `links::Hook`
pub record Hook : Type 0 where
  pub previous : ℕ
  pub next : ℕ

-- `Hooks::hook_raw`
abbrev pub Hooks : Type 0
Hooks = ℕ → Hook

abbrev pub update {ℓ} : {A : Type ℓ} → (ℕ → A) → ℕ → A → ℕ → A
update f i v j = if i == j then v else f j

abbrev pub set_previous : Hooks → ℕ → ℕ → Hooks
set_previous hooks i word = update hooks i (record (hooks i) { previous = word })

abbrev pub set_next : Hooks → ℕ → ℕ → Hooks
set_next hooks i word = update hooks i (record (hooks i) { next = word })

-- `Index::decode` and `Index::encode`, on raw numbers
abbrev pub decode : ℕ → Option ℕ
decode word = if word == end then none else some word

abbrev pub encode : Option ℕ → ℕ
encode none = end
encode (some i) = i

-- `links::Chain<C>`; the count is `none` where `C` is `()`, which stores none.
pub record Chain : Type 0 where
  pub head : ℕ
  pub tail : ℕ
  pub count : Option ℕ

unfoldable pub new_chain : Option ℕ → Chain
new_chain count = record { head = end; tail = end; count = count }

unfoldable pub first : Chain → Option ℕ
first self = decode self.head

unfoldable pub last : Chain → Option ℕ
last self = decode self.tail

unfoldable pub is_empty : Chain → Bool
is_empty self = self.head == end

abbrev pub count_up : Option ℕ → Option ℕ
count_up none = none
count_up (some n) = some (as_u32 (n + 1))

abbrev pub count_down : Option ℕ → Option ℕ
count_down none = none
count_down (some n) = some (wrapping_sub mod32 n 1)

-- `Chain::link_back`, by `Insert::new` and `Insert::commit`
unfoldable pub link_back : Chain → Hooks → ℕ → Chain × Hooks
link_back chain hooks index =
    let previous = chain.tail in
    let head = elim (decode previous) as (λ x. ℕ) [ none ↦ index | some p ↦ chain.head ] in
    let joined = elim (decode previous) as (λ x. Hooks) [
      | none ↦ hooks
      | some p ↦ set_next hooks p index
    ] in
    (
      record { head = head; tail = index; count = count_up chain.count },
      set_next (set_previous joined index previous) index end,
    )

-- The cells `previous` and `next` of `Detach::neighbors`, written with the given words.
abbrev pub join : Chain → Hooks → (previous next to_prior to_after : ℕ) → Chain × Hooks
join chain hooks previous next to_prior to_after =
    let head = elim (decode previous) as (λ x. ℕ) [ none ↦ to_prior | some p ↦ chain.head ] in
    let before = elim (decode previous) as (λ x. Hooks) [
      | none ↦ hooks
      | some p ↦ set_next hooks p to_prior
    ] in
    let tail = elim (decode next) as (λ x. ℕ) [ none ↦ to_after | some n ↦ chain.tail ] in
    let both = elim (decode next) as (λ x. Hooks) [
      | none ↦ before
      | some n ↦ set_previous before n to_after
    ] in
    (record chain { head = head; tail = tail }, both)

-- `Chain::unlink`, by `Detach::new` and `Removal::commit`; the hook keeps its own words.
unfoldable pub unlink : Chain → Hooks → ℕ → Chain × Hooks
unlink chain hooks index =
    let previous = (hooks index).previous in
    let next = (hooks index).next in
    let (joined, rest) = join chain hooks previous next next previous in
    (record joined { count = count_down chain.count }, rest)

-- `Detach::restore`
pub restore : Chain → Hooks → ℕ → Chain × Hooks
restore chain hooks index = join chain hooks (hooks index).previous (hooks index).next index index

-- `Hooks::chain_pop`, by `Pop::at` and `Removal::commit`
unfoldable pub chain_pop : Chain → Hooks → ℕ → Chain × Hooks
chain_pop chain hooks index =
    let next = (hooks index).next in
    (
      record {
        head = next;
        tail = elim (decode next) as (λ x. ℕ) [ none ↦ end | some n ↦ chain.tail ];
        count = count_down chain.count;
      },
      elim (decode next) as (λ x. Hooks) [ none ↦ hooks | some n ↦ set_previous hooks n end ],
    )

-- `Chain::append`, by `Splice::new` and `Splice::commit`: the target, the source and the hooks.
pub append : Chain → Chain → Hooks → Chain × Chain × Hooks
append target source hooks = (
  record target {
    head = elim (decode target.tail) as (λ x. ℕ) [ none ↦ source.head | some t ↦ target.head ];
    tail = source.tail;
  },
  record source { head = end; tail = end },
  elim (decode target.tail) as (λ x. Hooks) [
    | none ↦ hooks
    | some t ↦ set_previous (set_next hooks t source.head) source.head target.tail
  ],
)

-- `EndpointHook::push::<FRONT>` with the endpoint `END`, to a head that owns a tail or does not.
abbrev pub endpoint_push : (front owns_tail : Bool) → Chain → Hooks → ℕ → Option ℕ → Chain × Hooks
endpoint_push front owns_tail chain hooks index adjacent =
    let beside = elim adjacent as (λ x. Hooks) [
      | none ↦ hooks
      | some a ↦ if front then set_previous hooks a index else set_next hooks a index
    ] in
    let word = encode adjacent in
    let alone = elim adjacent as (λ x. Bool) [ none ↦ true | some a ↦ false ] in
    (
      record chain {
        head = if front then index else if alone then index else chain.head;
        tail =
            if front
            then (if alone && owns_tail then index else chain.tail)
            else if owns_tail
            then index
            else chain.tail;
      },
      update beside index
          (record { previous = if front then end else word; next = if front then word else end }),
    )

-- `Chain::move_back` between the chains of a family, by name, since the two may be one: the target's
-- tail is read before the removal, and the push goes to what the removal left.
pub move_back : (ℕ → Chain) → Hooks → (source target index : ℕ) → (ℕ → Chain) × Hooks
unfolding unlink last
move_back chains hooks source target index =
    let adjacent = last (chains target) in
    let (left, rest) = unlink (chains source) hooks index in
    let between = update chains source left in
    let (pushed, final) = endpoint_push false true (between target) rest index adjacent in
    (update between target pushed, final)

-- `links::Free`, its head word: `seeded`, `acquire_at`, `acquire_raw` and `recycle`
unfoldable pub seeded : ℕ → ℕ
seeded cap = if cap == 0 then end else 0

unfoldable pub acquire_at : Hooks → ℕ → ℕ × Hooks
acquire_at hooks index = ((hooks index).next, set_next hooks index end)

unfoldable pub acquire_raw : ℕ → Hooks → Option ℕ × (ℕ × Hooks)
unfolding acquire_at
acquire_raw free hooks = elim (decode free) as (λ x. Option ℕ × (ℕ × Hooks)) [
  | none ↦ (none, (free, hooks))
  | some index ↦ (some index, acquire_at hooks index)
]

unfoldable pub recycle : ℕ → Hooks → ℕ → ℕ × Hooks
recycle free hooks index = (index, update hooks index (record { previous = index; next = free }))

-- `Hooks::link_raw` and `Hooks::unlink_raw`, on the head of a `List`
abbrev pub as_chain : ℕ → Chain
as_chain list = record { head = list; tail = end; count = none }

pub link_raw : ℕ → Hooks → ℕ → ℕ × Hooks
link_raw list hooks index =
    let (chain, rest) = endpoint_push true false (as_chain list) hooks index (decode list) in
    (chain.head, rest)

pub unlink_raw : ℕ → Hooks → ℕ → ℕ × Hooks
unlink_raw list hooks index =
    let before = (hooks index).previous in
    let after = (hooks index).next in
    let first = elim (decode before) as (λ x. ℕ) [
      | none ↦ if after == before then end else after
      | some p ↦ list
    ] in
    let joined = elim (decode before) as (λ x. Hooks) [
      | none ↦ hooks
      | some p ↦ set_next hooks p after
    ] in
    let both = elim (decode after) as (λ x. Hooks) [
      | none ↦ joined
      | some n ↦ set_previous joined n before
    ] in
    (first, update both index (record { previous = index; next = end }))

-- `Hook::is_linked`, `Hook::is_vacant`, `Detached::idle` and `park`, and `Hook::try_unpark`
pub is_linked : Hook → ℕ → Bool
is_linked hook index = ltb index end && not (hook.previous == as_u32 index)

pub is_vacant : Hook → ℕ → Bool
is_vacant hook index = ltb index end && (hook.previous == as_u32 index) && (hook.next == end)

pub idle : Hooks → ℕ → Hooks
idle hooks index = update hooks index (record { previous = index; next = end })

unfoldable pub park : Hooks → ℕ → Hooks
park hooks index = update hooks index (record { previous = index; next = index })

unfoldable pub try_unpark : Hooks → ℕ → Option Hooks
try_unpark hooks index =
    if ((hooks index).previous == index) && ((hooks index).next == index)
    then some (set_next hooks index end)
    else none
