-- ===== src/Alerts/Fired.antt =====
-- Which alerts fire.
use mathlib.Core.Path.{subst}
use mathlib.Core.List.{append_assoc, append-nil}
use portfolio_tracker_public.Prelude.{
  suc, not, is_none, ◌≡◌, refl, ◌∙◌, ap, sym, String, List, [], ◌∷◌, ◌++◌, map, Option, none, some,
  Bool, false, ◌==◌, ◌&&◌, string_eq, keep, length, if◌then◌else◌, arith, Bool-cases, inl, inr,
}
use portfolio_tracker_public.Prelude.Text.{upper}
use portfolio_tracker_public.Prelude.Int.{leb_ℤ}
use portfolio_tracker_public.Prelude.Decimal.{Decimal}
use portfolio_tracker_public.Alerts.Evaluate.{
  AlertRule, AlertEvent, Surroundings, Fired, alert_message, alert_event, message_of, fire,
  evaluate_rules, evaluate_alerts,
}

-- The price is at or beyond the threshold on the side that the rule watches.
abbrev pub is_beyond : AlertRule → Option Decimal → Bool
is_beyond rule none = false
is_beyond rule (some price) =
    if rule.condition == "price_drop_pct"
    then leb_ℤ price rule.threshold
    else rule.condition == "price_rise_pct" && leb_ℤ rule.threshold price

module _ (env : Surroundings) where
  abbrev pub is_set_off : AlertRule → Bool
  is_set_off rule = is_beyond rule (env.prices (upper rule.asset_symbol))

  length-append : (es : List AlertEvent) (e : AlertEvent) → length (es ++ e ∷ []) ≡ suc (length es)
  length-append [] e = refl
  length-append (x ∷ es) e = ap suc (length-append es e)

  ids-append :
      (es : List AlertEvent) (e : AlertEvent)
      → map (λ x. x.rule_id) (es ++ e ∷ []) ≡ map (λ x. x.rule_id) es ++ e.rule_id ∷ []
  ids-append [] e = refl
  ids-append (x ∷ es) e = ap (◌∷◌ x.rule_id) (ids-append es e)

  is_beyond-message :
      (rule : AlertRule) (price : Decimal)
      → is_beyond rule (some price) ≡ not (is_none (alert_message env rule price))
  unfolding alert_message
  is_beyond-message rule price = ground arith

  -- What a fired rule does to the events, and a rule without a message.
  abbrev Adds : AlertRule → Fired → Bool → Fired → Type 0
  Adds rule f beyond g =
      (f.fired ≡ length f.events → g.fired ≡ length g.events)
      × (map (λ e. e.rule_id) g.events
          ≡ map (λ e. e.rule_id) f.events ++ (if beyond then rule.id ∷ [] else []))

  fire-Adds :
      (rule : AlertRule) (f : Fired) (o : Option String)
      → Adds rule f (not (is_none o)) (fire env rule f o)
  unfolding fire alert_event
  fire-Adds rule f none = (λ h. h, sym (append-nil _))
  fire-Adds rule f (some message) =
      (λ h. ap suc h ∙ sym (length-append f.events _), ids-append f.events _)

  rule-Adds :
      (rule : AlertRule) (f : Fired) (o : Option Decimal)
      → Adds rule f (is_beyond rule o) (fire env rule f (message_of env rule o))
  unfolding message_of
  rule-Adds rule f none = fire-Adds rule f none
  rule-Adds rule f (some price) =
      subst (λ b. Adds rule f b (fire env rule f (alert_message env rule price)))
        (sym (is_beyond-message rule price)) (fire-Adds rule f (alert_message env rule price))

  keep-cons :
      (rule : AlertRule) (rules : List AlertRule)
      → map (λ r. r.id) (keep is_set_off (rule ∷ rules))
        ≡ (if is_set_off rule then rule.id ∷ [] else []) ++ map (λ r. r.id) (keep is_set_off rules)
  keep-cons rule rules = elim (Bool-cases (is_set_off rule)) [
    | inl e ↦ rw e refl
    | inr e ↦ rw e refl
  ]

  evaluate_rules_lem :
      (f : Fired) (rules : List AlertRule)
      → let g = evaluate_rules env f rules in
        (f.fired ≡ length f.events → g.fired ≡ length g.events)
        × (map (λ e. e.rule_id) g.events
            ≡ map (λ e. e.rule_id) f.events ++ map (λ r. r.id) (keep is_set_off rules))
  unfolding evaluate_rules
  evaluate_rules_lem f [] = (λ h. h, sym (append-nil _))
  evaluate_rules_lem f (rule ∷ rules) =
      let one = rule-Adds rule f (env.prices (upper rule.asset_symbol)) in
      let next = fire env rule f (message_of env rule (env.prices (upper rule.asset_symbol))) in
      let rest = evaluate_rules_lem next rules in
      let ids = map (λ r. r.id) (keep is_set_off rules) in
      (
        λ h. rest.0 (one.0 h),
        rest.1
            ∙ ap (λ es. es ++ ids) one.1
            ∙ append_assoc (map (λ e. e.rule_id) f.events)
                (if is_set_off rule then rule.id ∷ [] else []) ids
            ∙ ap (λ es. map (λ e. e.rule_id) f.events ++ es) (sym (keep-cons rule rules)),
      )

  -- The events that an evaluation adds are those of the active rules whose symbol has a price at or
  -- beyond their threshold, once each and in the order of the rules, and the number that it returns is
  -- theirs.
  pub evaluate_alerts-events :
      (rules : List AlertRule)
      → let g = evaluate_alerts env rules in
        (map (λ e. e.rule_id) g.events
          ≡ map (λ r. r.id) (keep is_set_off (keep (λ r. r.is_active) rules)))
        × (g.fired ≡ length g.events)
  unfolding evaluate_alerts
  evaluate_alerts-events rules =
      let h =
        evaluate_rules_lem (record { events = []; fired = 0 }) (keep (λ r. r.is_active) rules) in
      (h.1, h.0 refl)
