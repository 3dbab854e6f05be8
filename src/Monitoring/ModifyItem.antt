-- ===== src/Monitoring/ModifyItem.antt =====
-- QOpen62541Subscription::modifyMonitoring and modifyMonitoredItemParameters
-- (plugins/opcua/open62541/qopen62541subscription.cpp).
use Prim.Native.Nat.{bit_or}
use qtopcua.Prelude.{
  ℕ, Bool, true, false, not, [], ◌∷◌, Option, none, some, ◌==◌, if◌then◌else◌, find, insert,
}
use qtopcua.Monitoring.Parameters.{
  Parameter, parameter_flag, Variant, boolean, uint, double, mode, event_filter_result,
  MonitoringParameters, default_parameters, is_valid, create_filter,
}
use qtopcua.Monitoring.Stack.{
  Stack, ModifyItemRequest, ModifyItemResult, ModeResponse, monitoring_status_changed,
}
use qtopcua.Monitoring.Subscription.{
  MonitoredItem, Subscription, Result, good, bad_internal_error, get_item_for_attribute,
}
use qtopcua.Monitoring.Modify.{
  bad_attribute_id_invalid, bad_not_implemented, bad_type_mismatch, Requested, no_match, refused,
  request, answer, modify_subscription_parameters,
}

abbrev unchanged_item_request : Subscription → MonitoredItem → ModifyItemRequest
unchanged_item_request s item = record {
  subscription_id = s.m_subscription_id;
  monitored_item_id = item.monitored_item_id;
  discard_oldest = item.parameters.discard_oldest;
  queue_size = item.parameters.queue_size;
  sampling_interval = item.parameters.sampling_interval;
  client_handle = item.client_handle;
  filter = none;
}

-- The request with the filter that the item has.
abbrev pub with_filter : MonitoredItem → ModifyItemRequest → Requested ModifyItemRequest
with_filter item req =
    if is_valid item.parameters.filter
    then (elim (create_filter item.parameters.filter) [
      | none ↦ refused bad_internal_error
      | some f ↦ request (record req { filter = some f })
    ])
    else request req

unfoldable pub item_request :
    Parameter → Variant → Subscription → MonitoredItem → Requested ModifyItemRequest
item_request Parameter.discard_oldest (boolean b) s item =
    with_filter item (record (unchanged_item_request s item) { discard_oldest = b })
item_request Parameter.discard_oldest value s item = refused bad_type_mismatch
item_request Parameter.queue_size (uint n) s item =
    with_filter item (record (unchanged_item_request s item) { queue_size = n })
item_request Parameter.queue_size value s item = refused bad_type_mismatch
item_request Parameter.sampling_interval (double d) s item =
    with_filter item (record (unchanged_item_request s item) { sampling_interval = d })
item_request Parameter.sampling_interval value s item = refused bad_type_mismatch
item_request Parameter.filter value s item = elim (create_filter value) [
  | none ↦ refused bad_internal_error
  | some f ↦ request (record (unchanged_item_request s item) { filter = some f })
]
item_request parameter value s item = no_match

abbrev pub is_parameter : Parameter → Parameter → Bool
is_parameter a b = parameter_flag a == parameter_flag b

abbrev pub with_status : ℕ → MonitoringParameters → MonitoringParameters
with_status status p = record p { status_code = status }

abbrev as_boolean : Variant → Bool
as_boolean (boolean b) = b
as_boolean v = false

abbrev result_or : Variant → Option ℕ → Variant
result_or old none = old
result_or old (some r) = event_filter_result r

-- The parameters of the item after a success, and the flags of what has changed.
unfoldable pub modified_parameters :
    Stack → Parameter → Variant → ModifyItemResult → MonitoringParameters → MonitoringParameters
modified_parameters stack item value res p =
    let to_filter = is_parameter item Parameter.filter in
    record p {
      status_code = good;
      sampling_interval =
          if stack.fuzzy_compare p.sampling_interval res.revised_sampling_interval
          then p.sampling_interval
          else res.revised_sampling_interval;
      queue_size = res.revised_queue_size;
      discard_oldest =
          if is_parameter item Parameter.discard_oldest then as_boolean value else p.discard_oldest;
      filter = if to_filter then value else p.filter;
      filter_result =
          if to_filter then result_or p.filter_result res.event_filter_result else p.filter_result;
    }

unfoldable pub modified_flags : Stack → Parameter → ModifyItemResult → MonitoringParameters → ℕ
modified_flags stack item res p =
    bit_or
      (bit_or (parameter_flag item) (
        if stack.fuzzy_compare p.sampling_interval res.revised_sampling_interval
        then 0
        else parameter_flag Parameter.sampling_interval))
      (if p.queue_size == res.revised_queue_size then 0 else parameter_flag Parameter.queue_size)

-- `monItem->parameters = p`
abbrev pub with_parameters : ℕ → MonitoredItem → MonitoringParameters → Subscription → Subscription
with_parameters address item p s = record s {
  heap = insert address (record item { parameters = p }) s.heap;
}

-- The item takes over what a Good result accepts.
unfoldable pub accepted_result :
    Stack
    → ℕ
    → ℕ
    → Parameter
    → Variant
    → ℕ
    → MonitoredItem
    → Subscription
    → ModifyItemResult
    → Result Bool
accepted_result stack handle attr item value address mon_item s first =
    let p = modified_parameters stack item value first mon_item.parameters in
    record {
      returned = true;
      state = with_parameters address mon_item p s;
      signals =
          monitoring_status_changed handle attr
            (modified_flags stack item first mon_item.parameters) p
          ∷ [];
    }

-- What follows the switch for the object at an address. The first result is read even if there is
-- none.
unfoldable pub item_modified :
    Stack
    → ℕ
    → ℕ
    → Parameter
    → Variant
    → ℕ
    → MonitoredItem
    → Subscription
    → Requested ModifyItemRequest
    → Option (Result Bool)
item_modified stack handle attr item value address mon_item s no_match =
    some (record { returned = false; state = s; signals = [] })
item_modified stack handle attr item value address mon_item s (refused status) =
    answer handle attr item (with_status status mon_item.parameters) s
item_modified stack handle attr item value address mon_item s (request req) =
    let res = stack.modify_item req in
    if not (res.service_result == good)
    then answer handle attr item (with_status res.service_result mon_item.parameters) s
    else (elim res.first_result [
      | none ↦ none
      | some first ↦
          if not (first.status_code == good)
          then answer handle attr item (with_status first.status_code mon_item.parameters) s
          else some (accepted_result stack handle attr item value address mon_item s first)
    ])

-- false if the parameter is none of an item; none where a pointer that dangles or the first of no
-- results is used.
unfoldable pub modify_monitored_item_parameters :
    Stack → ℕ → ℕ → Parameter → Variant → Subscription → Option (Result Bool)
modify_monitored_item_parameters stack handle attr item value s =
    elim (get_item_for_attribute handle attr s) [
      | none ↦ none
      | some address ↦ elim (find address s.heap) [
        | none ↦ none
        | some mon_item ↦
            item_modified stack handle attr item value address mon_item s
              (item_request item value s mon_item)
      ]
    ]

-- What follows the answer of a mode service; `accepted` are the parameters with the new mode. The
-- first result is read even if there is none.
unfoldable pub mode_answer :
    ℕ
    → ℕ
    → Parameter
    → ModeResponse
    → (p accepted : MonitoringParameters) → Subscription
    → Option (Result Bool)
mode_answer handle attr item res p accepted s =
    if not (res.service_result == good)
    then answer handle attr item (with_status res.service_result p) s
    else (elim res.first_result [
      | none ↦ none
      | some first ↦
          answer handle attr item (with_status first (if first == good then accepted else p)) s
    ])

-- The value of a QVariant of one type; none for all others.
abbrev pub boolean_value : Variant → Option Bool
boolean_value (boolean b) = some b
boolean_value v = none

abbrev pub mode_value : Variant → Option ℕ
mode_value (mode m) = some m
mode_value v = none

-- SetPublishingMode
unfoldable pub modify_publishing :
    Stack → ℕ → ℕ → Option Bool → MonitoredItem → Subscription → Option (Result Bool)
modify_publishing stack handle attr none item s =
    answer handle attr Parameter.publishing_enabled (with_status bad_type_mismatch item.parameters)
      s
modify_publishing stack handle attr (some b) item s =
    mode_answer handle attr Parameter.publishing_enabled
      (stack.set_publishing_mode s.m_subscription_id b) item.parameters
      (record item.parameters { publishing_enabled = b }) s

-- SetMonitoringMode
unfoldable pub modify_monitoring_mode :
    Stack → ℕ → ℕ → Option ℕ → MonitoredItem → Subscription → Option (Result Bool)
modify_monitoring_mode stack handle attr none item s =
    answer handle attr Parameter.monitoring_mode (with_status bad_type_mismatch item.parameters) s
modify_monitoring_mode stack handle attr (some m) item s =
    mode_answer handle attr Parameter.monitoring_mode
      (stack.set_monitoring_mode s.m_subscription_id item.monitored_item_id m) item.parameters
      (record item.parameters { monitoring_mode = m }) s

-- The services for parameters of the subscription and of the item, one after the other.
unfoldable pub modify_parameters :
    Stack → ℕ → ℕ → Parameter → Variant → MonitoredItem → Subscription → Option (Result Bool)
modify_parameters stack handle attr item value mon_item s =
    elim (modify_subscription_parameters stack handle attr item value s) [
      | none ↦ none
      | some r ↦
          if r.returned
          then some r
          else (elim (modify_monitored_item_parameters stack handle attr item value s) [
            | none ↦ none
            | some r' ↦
                if r'.returned
                then some r'
                else answer handle attr item (with_status bad_not_implemented mon_item.parameters) s
          ])
    ]

-- The result's Boolean means nothing; none where a pointer that dangles or the first of no results
-- is used.
unfoldable pub modify_monitoring :
    Stack → ℕ → ℕ → Parameter → Variant → Subscription → Option (Result Bool)
unfolding modify_publishing modify_monitoring_mode modify_parameters
modify_monitoring stack handle attr item value s = elim (get_item_for_attribute handle attr s) [
  | none ↦
      answer handle attr item (record default_parameters { status_code = bad_attribute_id_invalid })
        s
  | some address ↦ elim (find address s.heap) [
    | none ↦ none
    | some mon_item ↦
        if is_parameter item Parameter.publishing_enabled
        then modify_publishing stack handle attr (boolean_value value) mon_item s
        else if is_parameter item Parameter.monitoring_mode
        then modify_monitoring_mode stack handle attr (mode_value value) mon_item s
        else modify_parameters stack handle attr item value mon_item s
  ]
]
