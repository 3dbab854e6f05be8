-- ===== src/Nodes/Mirror/Modified.antt =====
-- modifyMonitoring, with the node that its signals reach: the parameters of a subscription, the
-- modes, and the parameters of an item.
use qtopcua.Prelude.{
  ℕ, ◌≡◌, refl, Bool, false, Option, none, some, ◌==◌, ◌^◌, find, Option-cases, Bool-cases, inl,
  inr, arith,
}
use qtopcua.Monitoring.Parameters.{Parameter, parameter_flag, Variant, MonitoringParameters}
use qtopcua.Monitoring.Stack.{Stack, ModeResponse, ModifySubscriptionRequest}
use qtopcua.Monitoring.Subscription.{
  MonitoredItem, Subscription, good, objects, get_item_for_attribute,
}
use qtopcua.Monitoring.Modify.{
  Requested, no_match, refused, request, subscription_request, changed_flags,
  subscription_parameters, revised, subscription_modified, modify_subscription_parameters,
}
use qtopcua.Monitoring.ModifyItem.{
  is_parameter, boolean_value, mode_value, mode_answer, modify_publishing, modify_monitoring_mode,
  modify_parameters, modify_monitored_item_parameters, modify_monitoring,
}
use qtopcua.Nodes.Handles.{ClientImpl}
use qtopcua.Nodes.Dispatch.{receive_all}
use qtopcua.Nodes.Mirror.{item_status, Mirrors}
use qtopcua.Nodes.Mirror.Calls.{unchanged-Mirrors, KeepsUp, KeepsUp-modified}
use qtopcua.Nodes.Mirror.Told.{IsForeign, Mirrors-told, Mirrors-status_signals}

-- The flags of a modified subscription name no parameter that only an item has.
changed_flags-IsForeign :
    (stack : Stack) (item : Parameter) (value : Variant) (s : Subscription)
    (req : ModifySubscriptionRequest)
    → subscription_request stack item value s ≡ request req
    → IsForeign (changed_flags stack item s)
unfolding subscription_request changed_flags
changed_flags-IsForeign stack Parameter.publishing_interval value s req e = ground arith
changed_flags-IsForeign stack Parameter.lifetime_count value s req e = ground arith
changed_flags-IsForeign stack Parameter.max_keep_alive_count value s req e = ground arith
changed_flags-IsForeign stack Parameter.priority value s req e = ground arith
changed_flags-IsForeign stack Parameter.max_notifications_per_publish value s req e = ground arith
changed_flags-IsForeign stack Parameter.sampling_interval value s req e = cc
changed_flags-IsForeign stack Parameter.filter value s req e = cc
changed_flags-IsForeign stack Parameter.queue_size value s req e = cc
changed_flags-IsForeign stack Parameter.discard_oldest value s req e = cc
changed_flags-IsForeign stack Parameter.publishing_enabled value s req e = cc
changed_flags-IsForeign stack Parameter.monitoring_mode value s req e = cc

subscription_request-bad :
    (stack : Stack) (item : Parameter) (value : Variant) (s : Subscription) (status : ℕ)
    → subscription_request stack item value s ≡ refused status
    → (status == good) ≡ false
unfolding subscription_request
subscription_request-bad stack Parameter.publishing_interval value s status e = ground arith
subscription_request-bad stack Parameter.lifetime_count value s status e = ground arith
subscription_request-bad stack Parameter.max_keep_alive_count value s status e = ground arith
subscription_request-bad stack Parameter.priority value s status e = ground arith
subscription_request-bad stack Parameter.max_notifications_per_publish value s status e =
    ground arith
subscription_request-bad stack Parameter.sampling_interval value s status e = cc
subscription_request-bad stack Parameter.filter value s status e = cc
subscription_request-bad stack Parameter.queue_size value s status e = cc
subscription_request-bad stack Parameter.discard_oldest value s status e = cc
subscription_request-bad stack Parameter.publishing_enabled value s status e = cc
subscription_request-bad stack Parameter.monitoring_mode value s status e = cc

mode_flags : IsForeign (2 ^ 0) × IsForeign (2 ^ 10)
mode_flags = ((refl, refl, refl, refl), (refl, refl, refl, refl))

module _ (stack : Stack) (handle attr : ℕ) (s : Subscription) (c : ClientImpl)
    (m : Mirrors handle attr s c) where
  revised-Mirrors :
      (item : Parameter) (value : Variant) (req : ModifySubscriptionRequest) (d : ClientImpl)
      → Mirrors handle attr s d
      → Mirrors handle attr (revised stack item value (stack.modify_subscription req) s) d
  unfolding item_status get_item_for_attribute
  revised-Mirrors item value req d n = record { obj = n.obj; at_node = n.at_node; agree = n.agree }

  KeepsUp-subscription_modified :
      (item : Parameter) (value : Variant) (q : Requested ModifySubscriptionRequest)
      → subscription_request stack item value s ≡ q
      → KeepsUp stack handle attr s c m (subscription_modified stack handle attr item value s q)
  unfolding subscription_modified receive_all
  KeepsUp-subscription_modified item value no_match e = m
  KeepsUp-subscription_modified item value (refused status) e =
      unchanged-Mirrors handle attr s c m _ _ (subscription_request-bad stack item value s status e)
  KeepsUp-subscription_modified item value (request req) e =
      let res = stack.modify_subscription req in
      elim (Bool-cases (res.service_result == good)) [
        | inl ok ↦ elim (Option-cases (objects s.m_item_id_to_item_mapping s.heap)) [
          | inl dangling ↦ rw ok (rw (dangling, subscription_modified) tt)
          | inr all ↦ rw ok (
              rw (all.1, subscription_modified)
                (revised-Mirrors item value req _ (
                  Mirrors-status_signals (changed_flags stack item s)
                    (subscription_parameters (revised stack item value res s))
                    (changed_flags-IsForeign stack item value s req e) handle attr s all.0 c m)))
        ]
        | inr bad ↦ rw bad (unchanged-Mirrors handle attr s c m _ _ bad)
      ]

  KeepsUp-mode_answer :
      (item : Parameter) (res : ModeResponse) (p accepted : MonitoringParameters)
      → IsForeign (parameter_flag item)
      → KeepsUp stack handle attr s c m (mode_answer handle attr item res p accepted s)
  unfolding mode_answer
  KeepsUp-mode_answer item res p accepted foreign = elim (Bool-cases (res.service_result == good)) [
    | inl ok ↦ elim (Option-cases res.first_result) [
      | inl empty ↦ rw ok (rw (empty, mode_answer) tt)
      | inr first ↦ rw ok (
          rw (first.1, mode_answer)
            (Mirrors-told (parameter_flag item) _ foreign handle attr s handle attr c m))
    ]
    | inr bad ↦ rw bad (unchanged-Mirrors handle attr s c m _ _ bad)
  ]

  KeepsUp-publishing :
      (b : Option Bool) (item : MonitoredItem)
      → KeepsUp stack handle attr s c m (modify_publishing stack handle attr b item s)
  unfolding modify_publishing
  KeepsUp-publishing none item = unchanged-Mirrors handle attr s c m _ _ refl
  KeepsUp-publishing (some b) item =
      KeepsUp-mode_answer Parameter.publishing_enabled _ _ _ mode_flags.0

  KeepsUp-monitoring_mode :
      (mode : Option ℕ) (item : MonitoredItem)
      → KeepsUp stack handle attr s c m (modify_monitoring_mode stack handle attr mode item s)
  unfolding modify_monitoring_mode
  KeepsUp-monitoring_mode none item = unchanged-Mirrors handle attr s c m _ _ refl
  KeepsUp-monitoring_mode (some mode) item =
      KeepsUp-mode_answer Parameter.monitoring_mode _ _ _ mode_flags.1

  module _ (item : Parameter) (value : Variant) where
    KeepsUp-parameters :
        (mon_item : MonitoredItem)
        → KeepsUp stack handle attr s c m
            (modify_parameters stack handle attr item value mon_item s)
    unfolding modify_parameters modify_subscription_parameters
    KeepsUp-parameters mon_item =
        let first =
          KeepsUp-subscription_modified item value (subscription_request stack item value s) refl in
        let second = KeepsUp-modified stack handle attr s c m item value in
        elim (Option-cases (
          subscription_modified stack handle attr item value s
            (subscription_request stack item value s))) [
              | inl dangling ↦ rw (dangling, modify_parameters) tt
              | inr r ↦
                  rw (r.1, modify_parameters)
                    (elim (Bool-cases r.0.returned) [
                      | inl done ↦ rw done (rw r.1 at first)
                      | inr more ↦
                          rw more
                            (elim (Option-cases
                              (modify_monitored_item_parameters stack handle attr item value s)) [
                                | inl dangling ↦ rw (dangling, modify_parameters) tt
                                | inr r' ↦
                                    rw (r'.1, modify_parameters)
                                      (elim (Bool-cases r'.0.returned) [
                                        | inl done ↦ rw done (rw r'.1 at second)
                                        | inr neither ↦
                                            rw neither
                                              (unchanged-Mirrors handle attr s c m _ _ refl)
                                      ])
                              ])
                    ])
            ]

    pub KeepsUp-modify_monitoring :
        KeepsUp stack handle attr s c m (modify_monitoring stack handle attr item value s)
    unfolding modify_monitoring
    KeepsUp-modify_monitoring = elim (Option-cases (get_item_for_attribute handle attr s)) [
      | inl missing ↦ rw (missing, modify_monitoring) (unchanged-Mirrors handle attr s c m _ _ refl)
      | inr found ↦ elim (Option-cases (find found.0 s.heap)) [
        | inl dangling ↦ rw (found.1, modify_monitoring) (rw (dangling, modify_monitoring) tt)
        | inr there ↦
            rw (found.1, modify_monitoring)
              (rw (there.1, modify_monitoring)
                (elim (Bool-cases (is_parameter item Parameter.publishing_enabled)) [
                  | inl publishing ↦
                      rw publishing (KeepsUp-publishing (boolean_value value) there.0)
                  | inr other ↦
                      rw other (elim (Bool-cases (is_parameter item Parameter.monitoring_mode)) [
                        | inl monitoring ↦
                            rw monitoring (KeepsUp-monitoring_mode (mode_value value) there.0)
                        | inr neither ↦ rw neither (KeepsUp-parameters there.0)
                      ])
                ]))
      ]
    ]
