-- ===== src/Demo/Volume.antt =====
-- `CTraderVolumeConversion` and `CTraderVolumePolicy` (xauusd/demo_execution.py): from a quantity to
-- the broker's volume, and the broker's bounds and steps of volumes.
use native.Mathlib.Nat.{div-add-mod', mul-mod_left}
use xauusd.Prelude.{
  ℕ, ◌+◌, ◌-◌, ◌*◌, ◌/◌, ◌%◌, ◌≤◌, ◌≡◌, ◌↔◌, ap, ◌∙◌, Bool, true, not, ◌&&◌, if◌then◌else◌, Option,
  none, some, ltb, leb, ◌==◌, arith,
}
use xauusd.Number.{Number, of_ℕ, mul}
use xauusd.Paper.{is_positive}

pub record VolumePolicy : Type 0 where
  pub min_volume : ℕ
  pub max_volume : ℕ
  pub step_volume : ℕ

pub data VolumeReason : Type 0 where
  below_minimum above_maximum off_step : VolumeReason

-- `validate`, which raises where this is false.
unfoldable pub is_valid_policy : VolumePolicy → Bool
is_valid_policy p =
    ltb 0 p.min_volume
    && (ltb 0 p.max_volume && (ltb 0 p.step_volume && leb p.min_volume p.max_volume))

unfoldable pub volume_reason : VolumePolicy → ℕ → Option VolumeReason
volume_reason p volume =
    if ltb volume p.min_volume
    then some below_minimum
    else if ltb p.max_volume volume
    then some above_maximum
    else if not ((volume - p.min_volume) % p.step_volume == 0)
    then some off_step
    else none

-- `to_volume`; nothing where it raises. `as_integer` is the integer that a number is equal to
-- (`float.is_integer`), if there is one.
unfoldable pub to_volume : {F : Type 0} ⦃n : Number F⦄ → (F → Option ℕ) → ℕ → F → Option ℕ
to_volume as_integer volume_per_unit quantity =
    if not (is_positive quantity) then none else as_integer (mul quantity (of_ℕ volume_per_unit))

-- Under a valid policy, a volume is let through exactly when it is the minimum and a number of whole
-- steps, and at most the maximum.
pub volume_reason_iff :
    (p : VolumePolicy) (volume : ℕ)
    → is_valid_policy p ≡ true
    → (volume_reason p volume ≡ none)
      ↔ ((k : ℕ) × (volume ≡ p.min_volume + k * p.step_volume) × (volume ≤ p.max_volume))
unfolding volume_reason is_valid_policy
volume_reason_iff p volume h =
    let above = volume - p.min_volume in
    let whole = div-add-mod' above p.step_volume in
    (
      λ e. (above / p.step_volume, ground (arith, whole), ground arith),
      λ (k, is_sum, within).
          let stepped : above % p.step_volume ≡ 0 =
            ap (λ a. a % p.step_volume) (ground (arith, is_sum)) ∙ mul-mod_left k p.step_volume in
          ground (arith, stepped),
    )
