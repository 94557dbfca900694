-- ===== src/Alerts/Examples.antt =====
-- A run of the alerts, and their theorem at concrete rules.
use portfolio_tracker_public.Prelude.{
  ℕ, ◌≡◌, refl, String, List, [], ◌∷◌, map, none, some, Bool, true, false, string_eq, keep, length,
  ◌==◌, if◌then◌else◌,
}
use portfolio_tracker_public.Prelude.Text.{upper}
use portfolio_tracker_public.Prelude.Int.{pos}
use portfolio_tracker_public.Prelude.Decimal.{whole}
use portfolio_tracker_public.Alerts.Evaluate.{
  AlertRule, Surroundings, Fired, alert_message, alert_event, message_of, fire, evaluate_rules,
  evaluate_alerts,
}
use portfolio_tracker_public.Alerts.Fired.{is_set_off, evaluate_alerts-events}

abbrev surroundings : Surroundings
surroundings = record {
  prices = λ sym. if sym == "BTC" then some (whole 60) else none;
  send_message = λ number message. false;
  now = λ number. pos 5;
  now_delivered = λ number. pos 6;
  show_price = λ price. "60.0000";
  show_threshold = λ threshold. "60";
}

abbrev rule : ℕ → String → String → Bool → AlertRule
rule id symbol condition active = record {
  id = id;
  asset_symbol = symbol;
  condition = condition;
  threshold = whole 60;
  is_active = active;
}

abbrev rules : List AlertRule
rules =
    rule 1 "btc" "price_drop_pct" true
    ∷ rule 2 "btc" "price_rise_pct" false
    ∷ rule 3 "eth" "price_drop_pct" true
    ∷ rule 4 "BTC" "price_rise_pct" true
    ∷ []

run : List AlertRule → Fired
unfolding evaluate_alerts evaluate_rules fire message_of alert_message alert_event upper string_eq
run = evaluate_alerts surroundings

alerts_run :
    (map (λ e. e.rule_id) (run rules).events ≡ 1 ∷ 4 ∷ [])
    × ((run rules).fired ≡ 2)
    × (map (λ e. e.delivered_at) (run rules).events ≡ none ∷ none ∷ [])
unfolding run
alerts_run = (refl, refl, refl)

events_example :
    let g = evaluate_alerts surroundings rules in
    (map (λ e. e.rule_id) g.events
      ≡ map (λ r. r.id) (keep (is_set_off surroundings) (keep (λ r. r.is_active) rules)))
    × (g.fired ≡ length g.events)
events_example = evaluate_alerts-events surroundings rules
