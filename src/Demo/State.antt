-- ===== src/Demo/State.antt =====
-- The data of demo execution: the configured account, orders, broker receipts and outcomes. Integers
-- that the program requires to be positive are natural numbers, as are those of a receipt.
use text.Mathlib.Text.{◌==◌ as str_eq}
use Prim.Native.Char.{code}
use Prim.Native.String.{◌++◌}
use xauusd.Prelude.{
  ℕ, String, suc, Bool, true, false, ◌&&◌, ◌||◌, not, if◌then◌else◌, Option, List, ltb, leb,
  is_blank,
}

pub record DemoAccount : Type 0 where
  pub account_id : ℕ
  pub symbol_id : ℕ
  pub account_type : String
  pub symbol : String
  pub host : String
  pub demo_confirmed : Bool

pub record DemoOrder : Type 0 where
  pub request_id : String
  pub side : String
  pub volume : ℕ

-- What the store keeps of a submission; rows older than the broker id lack it.
pub record RequestData : Type 0 where
  pub account_id : ℕ
  pub symbol : String
  pub symbol_id : ℕ
  pub side : String
  pub volume : ℕ
  pub broker_client_order_id : Option String

-- The fields of a receipt that decide an outcome, each of which may be missing.
pub record Event : Type 0 where
  pub execution_type : Option ℕ
  pub filled_volume : Option ℕ
  pub order_id : Option ℕ
  pub position_id : Option ℕ
  pub error_code : Option String
  pub deal_id : Option ℕ
  pub broker_client_order_id : Option String

pub record Receipt : Type 0 where
  pub last : Event
  pub events : List Event

pub data OutcomeReason : Type 0 where
  kill_switch duplicate_request identity_collision broker_rejected outcome_unknown broker_error :
      OutcomeReason

pub record DemoOutcome : Type 0 where
  pub accepted : Bool
  pub reason : Option OutcomeReason
  pub request_id : String
  pub response : Option Receipt

pub data Status : Type 0 where
  pending completed : Status

pub record RequestRow : Type 0 where
  pub request : RequestData
  pub status : Status
  pub outcome : Option DemoOutcome

pub record DemoState : Type 0 where
  pub stopped : Bool
  pub kill_switch_reason : String
  pub reconciled : Bool

abbrev pub demo_host : String
demo_host = "demo.ctraderapi.com"

-- `CTraderDemoAccount.validate`, which raises where this is false.
unfoldable pub is_valid_account : DemoAccount → Bool
is_valid_account a =
    str_eq a.host demo_host
    && (str_eq a.account_type "DEMO"
        && (not (a.demo_confirmed && not (str_eq a.account_type "DEMO"))
            && (str_eq a.symbol "XAUUSD" && (ltb 0 a.account_id && ltb 0 a.symbol_id))))

-- `CTraderOrder.validate`
unfoldable pub is_valid_order : DemoOrder → Bool
is_valid_order o =
    not (is_blank o.request_id) && ((str_eq o.side "BUY" || str_eq o.side "SELL") && ltb 0 o.volume)

abbrev length_of : String → ℕ
length_of String.[] = 0
length_of (String.◌∷◌ c s) = suc (length_of s)

-- `str.isascii`
abbrev is_ascii : String → Bool
is_ascii String.[] = true
is_ascii (String.◌∷◌ c s) = ltb (code c) 128 && is_ascii s

-- `digest` is the base64 text of the SHA-256 of a text.
unfoldable pub broker_client_order_id : (String → String) → String → String
broker_client_order_id digest request_id =
    if leb (length_of request_id) 50 && is_ascii request_id
    then request_id
    else "xau_" ++ digest request_id

unfoldable pub initial_state : DemoState
initial_state = record { stopped = true; kill_switch_reason = "missing_state"; reconciled = false }

-- What the broker reports after a restart, its identity fields included.
pub record Position : Type 0 where
  pub position_id : Option ℕ
  pub symbol_id : Option ℕ
  pub side : Option ℕ
  pub volume : Option ℕ
  pub position_status : Option ℕ

pub record Snapshot : Type 0 where
  pub account_id : ℕ
  pub is_demo : Bool
  pub symbol : String
  pub symbol_id : ℕ
  pub request_outcomes : List (String × DemoOutcome)
  pub positions : List Position
  pub open_orders : List Event
