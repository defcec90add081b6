-- ===== src/Paper/State.antt =====
-- The data of paper trading: the account state, the risk limits, decisions and what a call returns.
-- A state is the object that the store keeps as JSON, with its fields typed; `Validation` reads the
-- JSON. `F` is Python's numbers.
use xauusd.Prelude.{
  ℕ, String, ◌≡◌, refl, ◌⊎◌, inl, inr, Bool, true, ◌&&◌, Option, none, List, [], all,
}
use xauusd.Number.{Number, of_ℕ, finite}

-- A ledger entry. `filled_at` is the instant that the source prints.
pub record Fill (F : Type 0) : Type 0 where
  pub decision_id : String
  pub side : String
  pub quantity : F
  pub price : F
  pub realized_pnl : F
  pub filled_at : ℕ

pub record PaperState (F : Type 0) : Type 0 where
  pub stopped : Bool
  pub kill_switch_reason : String
  pub cash : F
  pub position : F
  pub average_entry_price : F
  pub mark_price : F
  pub high_water_equity : F
  pub day : Option String
  pub day_start_equity : F
  pub trades_today : F
  pub ledger : List (Fill F)

pub record PaperRiskConfig (F : Type 0) : Type 0 where
  pub daily_loss_limit : F
  pub max_drawdown : F
  pub max_position : F
  pub max_trades_per_day : F
  pub max_market_data_age_seconds : F

-- `market_data_at` is an instant, with whether the `datetime` carries a time zone.
pub record PaperDecision (F : Type 0) : Type 0 where
  pub decision_id : String
  pub symbol : String
  pub side : String
  pub quantity : F
  pub price : F
  pub market_data_at : ℕ
  pub is_aware : Bool

-- The reasons of a decision's outcome.
pub data Reason : Type 0 where
  kill_switch invalid_decision unsupported_symbol stale_market_data market_closed : Reason
  max_trades max_position daily_loss_limit max_drawdown accepted : Reason

-- What `_result` builds.
pub record Outcome (F : Type 0) : Type 0 where
  pub accepted : Bool
  pub reason : Reason
  pub decision_id : String
  pub position : F
  pub equity : F
  pub trades_today : F

pub data MonitorStatus : Type 0 where
  stopped ok : MonitorStatus

-- What a monitor's transition returns.
pub record Mark (F : Type 0) : Type 0 where
  pub status : MonitorStatus
  pub equity : F
  pub position : F
  pub mark_price : F

-- The two kinds of result that the store's decision table holds.
pub data Reply (F : Type 0) : Type 0 where
  evaluated : Outcome F → Reply F
  marked : Mark F → Reply F

-- The exceptions that a transition or its store can raise.
pub data Error : Type 0 where
  zero_division not_json blank_reason date_overflow : Error

pub data Result {ℓ} (A : Type ℓ) : Type ℓ where
  returned : A → Result A
  raised : Error → Result A

infixl 5 ◌>>=◌
abbrev pub ◌>>=◌ {ℓ κ} : {A : Type ℓ} {B : Type κ} → Result A → (A → Result B) → Result B
returned a >>= f = f a
raised e >>= f = raised e

-- Inversion of a successful bind, and the two ways a call can end.
pub >>=-eq-returned {ℓ κ} :
    {A : Type ℓ} {B : Type κ} (m : Result A) (f : A → Result B) {b : B}
    → (m >>= f) ≡ returned b
    → (a : A) × (m ≡ returned a) × (f a ≡ returned b)
>>=-eq-returned (returned a) f h = (a, refl, h)
>>=-eq-returned (raised e) f h = cc

pub Result-cases {ℓ} :
    {A : Type ℓ} (r : Result A) → ((a : A) × (r ≡ returned a)) ⊎ ((e : Error) × (r ≡ raised e))
Result-cases (returned a) = inl (a, refl)
Result-cases (raised e) = inr (e, refl)

unfoldable pub default_state : {F : Type 0} ⦃n : Number F⦄ → F → PaperState F
default_state initial_cash = record {
  stopped = true;
  kill_switch_reason = "missing_state";
  cash = initial_cash;
  position = of_ℕ 0;
  average_entry_price = of_ℕ 0;
  mark_price = of_ℕ 0;
  high_water_equity = initial_cash;
  day = none;
  day_start_equity = initial_cash;
  trades_today = of_ℕ 0;
  ledger = [];
}

unfoldable pub corrupt_state : {F : Type 0} ⦃n : Number F⦄ → F → PaperState F
unfolding default_state
corrupt_state initial_cash = record (default_state initial_cash) {
  kill_switch_reason = "corrupt_state";
}

-- Whether the numbers of a state are finite: `canonical_json` raises on any other, and the
-- validation of a stored state refuses one among the first seven.
unfoldable pub is_finite_account : {F : Type 0} ⦃n : Number F⦄ → PaperState F → Bool
is_finite_account s =
    finite s.cash
    && (finite s.position
        && (finite s.average_entry_price
            && (finite s.mark_price
                && (finite s.high_water_equity
                    && (finite s.day_start_equity && finite s.trades_today)))))

is_finite_fill : {F : Type 0} ⦃n : Number F⦄ → Fill F → Bool
is_finite_fill f = finite f.quantity && (finite f.price && finite f.realized_pnl)

unfoldable pub is_finite_state : {F : Type 0} ⦃n : Number F⦄ → PaperState F → Bool
unfolding is_finite_account is_finite_fill
is_finite_state s = is_finite_account s && all is_finite_fill s.ledger

unfoldable pub is_finite_reply : {F : Type 0} ⦃n : Number F⦄ → Reply F → Bool
is_finite_reply (evaluated o) = finite o.position && (finite o.equity && finite o.trades_today)
is_finite_reply (marked m) = finite m.equity && (finite m.position && finite m.mark_price)
