-- ===== src/Alerts/Evaluate.antt =====
-- `evaluate_alerts`. The prices that the pricing service returned, the answers of Telegram, the clock and
-- the printing of numbers are parameters; the answer and the time may differ from event to event.
use portfolio_tracker_public.Prelude.{
  ℕ, suc, String, ◌<>◌, List, [], ◌∷◌, ◌++◌, Option, none, some, Bool, ◌==◌, string_eq, keep,
  if◌then◌else◌,
}
use portfolio_tracker_public.Prelude.Text.{upper}
use portfolio_tracker_public.Prelude.Int.{ℤ, leb_ℤ}
use portfolio_tracker_public.Prelude.Decimal.{Decimal}

pub record AlertRule : Type 0 where
  pub id : ℕ
  pub asset_symbol : String
  pub condition : String
  pub threshold : Decimal
  pub is_active : Bool

pub record AlertEvent : Type 0 where
  pub rule_id : ℕ
  pub triggered_at : ℤ
  pub message : String
  pub telegram_delivered : Bool
  pub delivered_at : Option ℤ

-- What the surroundings answer, for the event of each number.
pub record Surroundings : Type 0 where
  pub prices : String → Option Decimal
  pub send_message : ℕ → String → Bool
  pub now : ℕ → ℤ
  pub now_delivered : ℕ → ℤ
  pub show_price : Decimal → String
  pub show_threshold : Decimal → String

-- The events of the loop and their number.
pub record Fired : Type 0 where
  pub events : List AlertEvent
  pub fired : ℕ

module _ (env : Surroundings) where
  -- The message of a rule that the price sets off.
  unfoldable pub alert_message : AlertRule → Decimal → Option String
  alert_message rule price =
      let sym = upper rule.asset_symbol in
      let ending =
        env.show_price price <> (" (threshold: $" <> (env.show_threshold rule.threshold <> ")")) in
      if rule.condition == "price_drop_pct"
      then if leb_ℤ price rule.threshold
        then some ("🔴 <b>ALERT</b>: " <> (sym <> (" dropped to $" <> ending)))
        else none
      else if rule.condition == "price_rise_pct"
      then if leb_ℤ rule.threshold price
        then some ("🟢 <b>ALERT</b>: " <> (sym <> (" rose to $" <> ending)))
        else none
      else none

  unfoldable pub alert_event : AlertRule → ℕ → String → AlertEvent
  alert_event rule number message = record {
    rule_id = rule.id;
    triggered_at = env.now number;
    message = message;
    telegram_delivered = env.send_message number message;
    delivered_at =
        if env.send_message number message then some (env.now_delivered number) else none;
  }

  unfoldable pub message_of : AlertRule → Option Decimal → Option String
  message_of rule none = none
  message_of rule (some price) = alert_message rule price

  unfoldable pub fire : AlertRule → Fired → Option String → Fired
  fire rule f none = f
  fire rule f (some message) = record {
    events = f.events ++ alert_event rule f.fired message ∷ [];
    fired = suc f.fired;
  }

  unfoldable pub evaluate_rules : Fired → List AlertRule → Fired
  evaluate_rules f [] = f
  evaluate_rules f (rule ∷ rules) =
      evaluate_rules (fire rule f (message_of rule (env.prices (upper rule.asset_symbol)))) rules

  -- The events that are added, and their number, which is returned.
  unfoldable pub evaluate_alerts : List AlertRule → Fired
  evaluate_alerts rules =
      evaluate_rules (record { events = []; fired = 0 }) (keep (λ rule. rule.is_active) rules)
