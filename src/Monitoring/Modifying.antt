-- ===== src/Monitoring/Modifying.antt =====
-- What modifyMonitoring leaves of a subscription.
use qtopcua.Prelude.{
  ℕ, ◌≡◌, refl, sym, ◌∙◌, Bool, Option, none, some, arith, ◌==◌, Bool-cases, Option-cases, inl, inr,
  find, find-insert,
}
use qtopcua.Monitoring.Parameters.{Parameter, Variant, MonitoringParameters}
use qtopcua.Monitoring.Stack.{
  Stack, ModeResponse, ModifySubscriptionRequest, ModifyItemRequest, ModifyItemResult,
}
use qtopcua.Monitoring.Subscription.{
  MonitoredItem, Subscription, Result, good, get_item_for_attribute,
}
use qtopcua.Monitoring.Modify.{
  Requested, no_match, refused, request, answer, subscription_request, subscription_modified,
  modify_subscription_parameters,
}
use qtopcua.Monitoring.ModifyItem.{
  is_parameter, boolean_value, mode_value, with_parameters, item_request,
  modify_monitored_item_parameters, item_modified, modify_publishing, modify_monitoring_mode,
  mode_answer, modify_parameters, modify_monitoring, accepted_result,
}
use qtopcua.Monitoring.Objects.{Collected, Collected-live}
use qtopcua.Monitoring.Consistent.{IsConsistent, IsConsistent-members, get_item-find2}

-- A call that uses no pointer that dangles and leaves a consistent state.
abbrev pub IsSound : Option (Result Bool) → Type 0
IsSound outcome = (r : Result Bool) × (outcome ≡ some r) × IsConsistent r.state

-- The services that set a mode or modify an item answer with a result for their one id where the
-- service result is Good.
pub record HasResults (stack : Stack) : Type 0 where
  pub publishing :
      (subscription : ℕ) (enabled : Bool)
      → (stack.set_publishing_mode subscription enabled).service_result ≡ good
      → (first : ℕ) × ((stack.set_publishing_mode subscription enabled).first_result ≡ some first)
  pub monitoring :
      (subscription item mode : ℕ)
      → (stack.set_monitoring_mode subscription item mode).service_result ≡ good
      → (first : ℕ) × ((stack.set_monitoring_mode subscription item mode).first_result ≡ some first)
  pub items :
      (req : ModifyItemRequest)
      → (stack.modify_item req).service_result ≡ good
      → (first : ModifyItemResult) × ((stack.modify_item req).first_result ≡ some first)

module _ (s : Subscription) (c : IsConsistent s) where
  IsSound-answer :
      (handle attr : ℕ) (item : Parameter) (p : MonitoringParameters)
      → IsSound (answer handle attr item p s)
  IsSound-answer handle attr item p = (_, refl, c)

  with_parameters-IsConsistent :
      (address : ℕ) (item : MonitoredItem) (p : MonitoringParameters)
      → find address s.heap ≡ some item
      → IsConsistent (with_parameters address item p s)
  with_parameters-IsConsistent address item p there = record {
    linked = λ q x e. ground (
      arith,
      there,
      find-insert address q (record item { parameters = p }) s.heap,
      c.linked address item,
      c.linked q x,
    );
    node_live = λ h a q e.
        let live = c.node_live h a q e in
        elim (Bool-cases (address == q)) [
          | inl same ↦ (
            record item { parameters = p },
            ground (arith, find-insert address q (record item { parameters = p }) s.heap),
            ground (arith, there, live.1, live.2),
            ground (arith, there, live.1, live.3),
          )
          | inr other ↦ (
            live.0,
            ground (arith, live.1, find-insert address q (record item { parameters = p }) s.heap),
            live.2,
            live.3,
          )
        ];
    id_live = λ id q e.
        let live = c.id_live id q e in
        elim (Bool-cases (address == q)) [
          | inl same ↦ (
            record item { parameters = p },
            ground (arith, find-insert address q (record item { parameters = p }) s.heap),
            ground (arith, there, live.1, live.2),
          )
          | inr other ↦ (
            live.0,
            ground (arith, live.1, find-insert address q (record item { parameters = p }) s.heap),
            live.2,
          )
        ];
    ids_unique = c.ids_unique;
    nodes_unique = c.nodes_unique;
    fresh = λ q h.
        ground
          (arith, there, c.fresh q, find-insert address q (record item { parameters = p }) s.heap);
  }

  module _ (stack : Stack) (handle attr : ℕ) (item : Parameter) (value : Variant) where
    IsSound-subscription_modified :
        (q : Requested ModifySubscriptionRequest)
        → IsSound (subscription_modified stack handle attr item value s q)
    unfolding subscription_modified
    IsSound-subscription_modified no_match = (_, refl, c)
    IsSound-subscription_modified (refused status) = (_, refl, c)
    IsSound-subscription_modified (request req) =
        let res = stack.modify_subscription req in
        let all : Collected s.m_item_id_to_item_mapping s.heap =
          Collected-live s.m_item_id_to_item_mapping s.heap c.ids_unique
            (λ id p e. let live = c.id_live id p e in (live.0, live.1)) in
        elim (Bool-cases (res.service_result == good)) [
          | inl ok ↦
              rw ok (rw (all.found, subscription_modified) (_, refl, IsConsistent-members s c))
          | inr bad ↦ rw bad (_, refl, c)
        ]

    IsSound-item_modified :
        (address : ℕ) (mon_item : MonitoredItem) (q : Requested ModifyItemRequest)
        → find address s.heap ≡ some mon_item
        → HasResults stack
        → IsSound (item_modified stack handle attr item value address mon_item s q)
    unfolding item_modified accepted_result
    IsSound-item_modified address mon_item no_match there has = (_, refl, c)
    IsSound-item_modified address mon_item (refused status) there has = (_, refl, c)
    IsSound-item_modified address mon_item (request req) there has =
        let res = stack.modify_item req in
        elim (Bool-cases (res.service_result == good)) [
          | inl ok ↦
              let first = has.items req (ground arith) in
              rw ok (
                rw (first.1, item_modified)
                  (elim (Bool-cases (first.0.status_code == good)) [
                    | inl fine ↦
                        rw fine (_, refl, with_parameters-IsConsistent address mon_item _ there)
                    | inr bad ↦ rw bad (_, refl, c)
                  ]))
          | inr bad ↦ rw bad (_, refl, c)
        ]

    module _ (address : ℕ) (mon_item : MonitoredItem)
        (found : get_item_for_attribute handle attr s ≡ some address)
        (there : find address s.heap ≡ some mon_item) (has : HasResults stack) where
      IsSound-item : IsSound (modify_monitored_item_parameters stack handle attr item value s)
      unfolding modify_monitored_item_parameters
      IsSound-item =
          rw (found, modify_monitored_item_parameters)
            (rw (there, modify_monitored_item_parameters)
              (IsSound-item_modified address mon_item (item_request item value s mon_item) there
                has))

      IsSound-parameters : IsSound (modify_parameters stack handle attr item value mon_item s)
      unfolding modify_parameters modify_subscription_parameters
      IsSound-parameters =
          let first = IsSound-subscription_modified (subscription_request stack item value s) in
          let second = IsSound-item in
          elim (Bool-cases first.0.returned) [
            | inl done ↦ rw (first.1, modify_parameters) (rw done (first.0, refl, first.2))
            | inr more ↦
                rw (first.1, modify_parameters)
                  (rw more (
                    rw (second.1, modify_parameters)
                      (elim (Bool-cases second.0.returned) [
                        | inl done ↦ rw done (second.0, refl, second.2)
                        | inr neither ↦ rw neither (_, refl, c)
                      ])))
          ]

  IsSound-mode_answer :
      (handle attr : ℕ) (item : Parameter) (res : ModeResponse) (p accepted : MonitoringParameters)
      → (res.service_result ≡ good → (first : ℕ) × (res.first_result ≡ some first))
      → IsSound (mode_answer handle attr item res p accepted s)
  unfolding mode_answer
  IsSound-mode_answer handle attr item res p accepted first =
      elim (Bool-cases (res.service_result == good)) [
        | inl ok ↦ rw ok (rw ((first (ground arith)).1, mode_answer) (_, refl, c))
        | inr bad ↦ rw bad (_, refl, c)
      ]

  module _ (stack : Stack) (handle attr : ℕ) (mon_item : MonitoredItem)
      (has : HasResults stack) where
    IsSound-publishing :
        (b : Option Bool) → IsSound (modify_publishing stack handle attr b mon_item s)
    unfolding modify_publishing
    IsSound-publishing none = (_, refl, c)
    IsSound-publishing (some b) =
        IsSound-mode_answer handle attr Parameter.publishing_enabled _ _ _
          (has.publishing s.m_subscription_id b)

    IsSound-monitoring_mode :
        (m : Option ℕ) → IsSound (modify_monitoring_mode stack handle attr m mon_item s)
    unfolding modify_monitoring_mode
    IsSound-monitoring_mode none = (_, refl, c)
    IsSound-monitoring_mode (some m) =
        IsSound-mode_answer handle attr Parameter.monitoring_mode _ _ _
          (has.monitoring s.m_subscription_id mon_item.monitored_item_id m)

  -- In a consistent state, modifying any parameter with any value uses no pointer that dangles and
  -- no result that is missing, and leaves a consistent state, whatever the server answers, if the
  -- services that set a mode and that modify an item come with a result where their service result
  -- is Good.
  pub modify_monitoring-IsSound :
      (stack : Stack) (handle attr : ℕ) (item : Parameter) (value : Variant)
      → HasResults stack
      → IsSound (modify_monitoring stack handle attr item value s)
  unfolding modify_monitoring
  modify_monitoring-IsSound stack handle attr item value has =
      elim (Option-cases (get_item_for_attribute handle attr s)) [
        | inl missing ↦ rw (missing, modify_monitoring) (_, refl, c)
        | inr found ↦
            let live =
              c.node_live handle attr found.0 (sym (get_item-find2 handle attr s) ∙ found.1) in
            rw (found.1, modify_monitoring)
              (rw (live.1, modify_monitoring)
                (elim (Bool-cases (is_parameter item Parameter.publishing_enabled)) [
                  | inl publishing ↦
                      rw publishing
                        (IsSound-publishing stack handle attr live.0 has (boolean_value value))
                  | inr other ↦
                      rw other (elim (Bool-cases (is_parameter item Parameter.monitoring_mode)) [
                        | inl monitoring ↦ rw monitoring (
                            IsSound-monitoring_mode stack handle attr live.0 has (mode_value value))
                        | inr neither ↦ rw neither (
                            IsSound-parameters stack handle attr item value found.0 live.0 found.1
                              live.1 has)
                      ])
                ]))
      ]
