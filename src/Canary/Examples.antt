-- ===== src/Canary/Examples.antt =====
-- The canary's source run on concrete bars, and its theorem applied there.
use xauusd.Prelude.{ℕ, ◌≡◌, refl, Option, none, some, List, [], ◌∷◌, map, arith, ap, ◌≤◌}
use xauusd.Canary.Source.{
  BarSignal, BarValue, transitions, last_value, values_if, drop_values, pending_transition, emitted,
}
use xauusd.Canary.Once.{Rises, IsLatest, IsFeed, emitted-Rises}

abbrev value : ℕ → BarSignal → BarValue
value time signal = record { time = time; signal = signal }

-- The purchase at 2 is seen at once, and again at the next read; the sale at 4 is on a bar that no
-- read has as its newest.
abbrev first_read : List BarValue
first_read = value 1 BarSignal.flat ∷ value 2 BarSignal.buy ∷ []

abbrev third_read : List BarValue
third_read =
    value 1 BarSignal.flat
    ∷ value 2 BarSignal.buy
    ∷ value 3 BarSignal.buy
    ∷ value 4 BarSignal.sell
    ∷ value 5 BarSignal.sell
    ∷ []

abbrev reads : List (List BarValue)
reads = first_read ∷ first_read ∷ third_read ∷ []

emitted_times : map (λ t. t.time) (emitted 2 none reads) ≡ 2 ∷ 4 ∷ []
unfolding emitted pending_transition transitions last_value values_if drop_values
emitted_times = refl

abbrev time_of : Option BarValue → ℕ
time_of none = 0
time_of (some v) = v.time

first-IsLatest : (last : Option ℕ) → ((l : ℕ) → last ≡ some l → l ≤ 2) → IsLatest last first_read
unfolding last_value
first-IsLatest last old v e =
    let at : 2 ≡ v.time = ap time_of e in
    ((omega (arith, at), (omega (arith, at), tt)), λ l k. omega (arith, at, old l k))

third-IsLatest : IsLatest (some 2) third_read
unfolding last_value
third-IsLatest v e =
    let at : 5 ≡ v.time = ap time_of e in
    (
      (
        omega (arith, at),
        (omega (arith, at), (omega (arith, at), (omega (arith, at), (omega (arith, at), tt)))),
      ),
      λ l k. ground (arith, at, k),
    )

reads-IsFeed : IsFeed none reads
unfolding last_value
reads-IsFeed = (
  first-IsLatest none (λ l k. absurd (ground (arith, k))),
  (first-IsLatest (some 2) (λ l k. ground (arith, k)), (third-IsLatest, tt)),
)

emitted-Rises_example : Rises 0 (emitted 2 none reads)
emitted-Rises_example = emitted-Rises 2 reads reads-IsFeed
