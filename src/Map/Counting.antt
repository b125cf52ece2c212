-- ===== src/Map/Counting.antt =====
-- How many buckets are occupied.
use o.Prelude.{ℕ, zero, suc, ◌+◌, ◌<◌, ◌≤◌, ◌≡◌, ◌≢◌, refl, ◌==◌, if◌then◌else◌, arith, ℕ_discrete}
use o.Links.{update}
use o.Map.{empty_control}

pub occupied_count : ℕ → (ℕ → ℕ) → ℕ
occupied_count zero control = 0
occupied_count (suc n) control =
    occupied_count n control + (if control n == empty_control then 0 else 1)

pub count-zero :
    (n : ℕ) (control : ℕ → ℕ)
    → ((i : ℕ) → i < n → control i ≡ empty_control)
    → occupied_count n control ≡ 0
unfolding occupied_count
count-zero zero control h = refl
count-zero (suc n) control h =
    ground (arith, h n, count-zero n control (λ i l. h i (omega (arith, l))))

-- Fewer occupied buckets than buckets leave a vacant one.
pub count-vacant :
    (n : ℕ) (control : ℕ → ℕ)
    → occupied_count n control < n
    → (i : ℕ) × (i < n) × (control i ≡ empty_control)
unfolding occupied_count
count-vacant zero control l = absurd (omega arith)
count-vacant (suc n) control l = elim (ℕ_discrete (control n) empty_control) [
  | yes e ↦ (n, omega arith, e)
  | no e ↦ let (i, m, h) = count-vacant n control (ground (arith, l, e)) in (i, omega (arith, m), h)
]

count-above :
    (n : ℕ) (control : ℕ → ℕ) (b x : ℕ)
    → n ≤ b
    → occupied_count n (update control b x) ≡ occupied_count n control
unfolding occupied_count
count-above zero control b x l = refl
count-above (suc n) control b x l = ground (arith, count-above n control b x)

pub count-fill :
    (n : ℕ) (control : ℕ → ℕ) (b x : ℕ)
    → b < n
    → control b ≡ empty_control
    → x ≢ empty_control
    → occupied_count n (update control b x) ≡ occupied_count n control + 1
unfolding occupied_count
count-fill zero control b x l e f = absurd (omega arith)
count-fill (suc n) control b x l e f =
    ground (arith, count-fill n control b x, count-above n control b x, e, f, l)

pub count-leave :
    (n : ℕ) (control : ℕ → ℕ) (b : ℕ)
    → b < n
    → control b ≢ empty_control
    → occupied_count n (update control b empty_control) + 1 ≡ occupied_count n control
unfolding occupied_count
count-leave zero control b l e = absurd (omega arith)
count-leave (suc n) control b l e =
    ground (arith, count-leave n control b, count-above n control b empty_control, e, l)

-- A shift keeps the count.
pub count-move :
    (n : ℕ) (control : ℕ → ℕ) (hole next : ℕ)
    → hole < n
    → next < n
    → hole ≢ next
    → control hole ≡ empty_control
    → control next ≢ empty_control
    → occupied_count n (update (update control hole (control next)) next empty_control)
      ≡ occupied_count n control
count-move n control hole next l m d e f = omega (
  arith,
  count-fill n control hole (control next) l e f,
  count-leave n (update control hole (control next)) next m (ground (arith, d, f)),
)
