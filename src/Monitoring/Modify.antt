-- ===== src/Monitoring/Modify.antt =====
-- QOpen62541Subscription::modifySubscriptionParameters
-- (plugins/opcua/open62541/qopen62541subscription.cpp).
use Prim.Native.Nat.{bit_or}
use qtopcua.Prelude.{
  ℕ, ◌%◌, Bool, true, false, not, List, [], ◌∷◌, Option, none, some, ◌==◌, if◌then◌else◌,
}
use qtopcua.Monitoring.Parameters.{
  Parameter, parameter_flag, Variant, MonitoringParameters, default_parameters, only_status,
}
use qtopcua.Monitoring.Stack.{
  Stack, ModifySubscriptionRequest, ModifySubscriptionResponse, Signal, monitoring_status_changed,
}
use qtopcua.Monitoring.Subscription.{MonitoredItem, Subscription, Result, good, objects}

abbrev pub bad_attribute_id_invalid : ℕ
bad_attribute_id_invalid = 0x80350000

abbrev pub bad_not_implemented : ℕ
bad_not_implemented = 0x80400000

abbrev pub bad_type_mismatch : ℕ
bad_type_mismatch = 0x80740000

-- What the switch of a modification makes of the parameter and the value: it is not its own, the
-- value is refused with a status, or a request is sent.
pub data Requested {ℓ} (R : Type ℓ) : Type ℓ where
  no_match : Requested R
  refused : ℕ → Requested R
  request : R → Requested R

-- The request before the switch; `UA_ModifySubscriptionRequest_init` leaves the priority 0.
abbrev pub unchanged_request : Subscription → ModifySubscriptionRequest
unchanged_request s = record {
  subscription_id = s.m_subscription_id;
  requested_publishing_interval = s.m_interval;
  requested_lifetime_count = s.m_lifetime_count;
  requested_max_keep_alive_count = s.m_max_keepalive_count;
  max_notifications_per_publish = s.m_max_notifications_per_publish;
  priority = 0;
}

abbrev pub converted {ℓ} : {R : Type ℓ} → (ℕ → R) → Option ℕ → Requested R
converted f none = refused bad_type_mismatch
converted f (some n) = request (f n)

unfoldable pub subscription_request :
    Stack → Parameter → Variant → Subscription → Requested ModifySubscriptionRequest
subscription_request stack Parameter.publishing_interval value s =
    converted (λ n. record (unchanged_request s) { requested_publishing_interval = n })
      (stack.to_double value)
subscription_request stack Parameter.lifetime_count value s =
    converted (λ n. record (unchanged_request s) { requested_lifetime_count = n })
      (stack.to_uint value)
subscription_request stack Parameter.max_keep_alive_count value s =
    converted (λ n. record (unchanged_request s) { requested_max_keep_alive_count = n })
      (stack.to_uint value)
subscription_request stack Parameter.priority value s =
    converted (λ n. record (unchanged_request s) { priority = n % 256 }) (stack.to_uint value)
subscription_request stack Parameter.max_notifications_per_publish value s =
    converted (λ n. record (unchanged_request s) { max_notifications_per_publish = n })
      (stack.to_uint value)
subscription_request stack parameter value s = no_match

-- The flags of a success: `p` still has the values of a default-constructed object.
unfoldable pub changed_flags : Stack → Parameter → Subscription → ℕ
changed_flags stack item s =
    bit_or
      (bit_or
        (bit_or (parameter_flag item) (
          if stack.fuzzy_compare default_parameters.publishing_interval s.m_interval
          then 0
          else parameter_flag Parameter.publishing_interval))
        (if default_parameters.lifetime_count == s.m_lifetime_count
          then 0
          else parameter_flag Parameter.lifetime_count))
      (if default_parameters.max_keep_alive_count == s.m_max_keepalive_count
        then 0
        else parameter_flag Parameter.max_keep_alive_count)

abbrev value_or_zero : Option ℕ → ℕ
value_or_zero none = 0
value_or_zero (some n) = n

-- The members after a success.
abbrev pub revised :
    Stack → Parameter → Variant → ModifySubscriptionResponse → Subscription → Subscription
revised stack item value res s = record s {
  m_lifetime_count = res.revised_lifetime_count;
  m_max_keepalive_count = res.revised_max_keep_alive_count;
  m_interval = res.revised_publishing_interval;
  m_priority =
      if parameter_flag item == parameter_flag Parameter.priority
      then value_or_zero (stack.to_uint value) % 256
      else s.m_priority;
  m_max_notifications_per_publish =
      if parameter_flag item == parameter_flag Parameter.max_notifications_per_publish
      then value_or_zero (stack.to_uint value)
      else s.m_max_notifications_per_publish;
}

abbrev pub subscription_parameters : Subscription → MonitoringParameters
subscription_parameters s = record default_parameters {
  status_code = good;
  publishing_interval = s.m_interval;
  lifetime_count = s.m_lifetime_count;
  max_keep_alive_count = s.m_max_keepalive_count;
  priority = s.m_priority;
  max_notifications_per_publish = s.m_max_notifications_per_publish;
}

abbrev pub status_signals : ℕ → MonitoringParameters → List MonitoredItem → List Signal
status_signals flags p [] = []
status_signals flags p (item ∷ items) =
    monitoring_status_changed item.handle item.attr flags p ∷ status_signals flags p items

-- A call that only signals a status for one attribute.
abbrev pub answer : ℕ → ℕ → Parameter → MonitoringParameters → Subscription → Option (Result Bool)
answer handle attr item p s = some (record {
  returned = true;
  state = s;
  signals = monitoring_status_changed handle attr (parameter_flag item) p ∷ [];
})

-- What follows the switch; none where a pointer that dangles is used.
unfoldable pub subscription_modified :
    Stack
    → ℕ
    → ℕ
    → Parameter
    → Variant
    → Subscription
    → Requested ModifySubscriptionRequest
    → Option (Result Bool)
subscription_modified stack handle attr item value s no_match =
    some (record { returned = false; state = s; signals = [] })
subscription_modified stack handle attr item value s (refused status) =
    answer handle attr item (only_status status) s
subscription_modified stack handle attr item value s (request req) =
    let res = stack.modify_subscription req in
    let s' = revised stack item value res s in
    if not (res.service_result == good)
    then answer handle attr item (only_status res.service_result) s
    else (elim (objects s.m_item_id_to_item_mapping s.heap) [
      | none ↦ none
      | some items ↦ some (record {
        returned = true;
        state = s';
        signals = status_signals (changed_flags stack item s) (subscription_parameters s') items;
      })
    ])

-- false if the parameter is none of a subscription.
unfoldable pub modify_subscription_parameters :
    Stack → ℕ → ℕ → Parameter → Variant → Subscription → Option (Result Bool)
modify_subscription_parameters stack handle attr item value s =
    subscription_modified stack handle attr item value s (subscription_request stack item value s)
