-- ===== src/Tests/Monitoring.antt =====
-- Runs of the subscriptions of the open62541 plug-in, against a server that accepts everything.
use qtopcua.Prelude.{
  ℕ, List, ◌+◌, ◌≡◌, refl, Bool, true, false, [], ◌∷◌, Option, none, some, ◌==◌, if◌then◌else◌,
  find, find2, insert, insert2,
}
use qtopcua.Monitoring.Parameters.{Parameter, boolean, double, uint, default_parameters}
use qtopcua.Monitoring.Stack.{Stack, CreateItemRequest, DataValue, Signal, data_change_occurred}
use qtopcua.Monitoring.Subscription.{
  Subscription, Result, new_subscription, remove_on_server, get_item_for_attribute,
}
use qtopcua.Monitoring.Items.{
  add_attribute_monitored_item, request_item, remove_attribute_monitored_item,
}
use qtopcua.Monitoring.Notify.{
  read_result, monitored_value_updated, event_received, send_timeout_notification,
}
use qtopcua.Monitoring.Modify.{subscription_request}
use qtopcua.Monitoring.ModifyItem.{modify_monitoring}
use qtopcua.Monitoring.Consistent.{IsConsistent}
use qtopcua.Monitoring.Adding.{HasFreshIds, add_attribute_monitored_item-values}
use qtopcua.Monitoring.Removing.{
  Removal, remove_attribute_monitored_item-Removal, Cleared, remove_on_server-Cleared,
}
use qtopcua.Monitoring.Modifying.{IsSound, HasResults, modify_monitoring-IsSound}
use qtopcua.Monitoring.Reachable.{Reachable, new, added, Reachable-IsConsistent, IsSound-Reachable}
use qtopcua.Monitoring.TimingOut.{TimedOut, send_timeout_notification-TimedOut}
use qtopcua.Monitoring.Requests.{KeepsOthers, IfRequested, subscription_request-KeepsOthers}

-- Item ids are 100 more than the client handle.
abbrev stack : Stack
stack = record {
  default_lifetime_count = 10000;
  default_max_keep_alive_count = 10;
  create_subscription = λ req. record {
    service_result = 0;
    subscription_id = 1;
    revised_publishing_interval = req.requested_publishing_interval;
    revised_lifetime_count = req.requested_lifetime_count;
    revised_max_keep_alive_count = req.requested_max_keep_alive_count;
  };
  modify_subscription = λ req. record {
    service_result = 0;
    revised_publishing_interval = req.requested_publishing_interval;
    revised_lifetime_count = req.requested_lifetime_count;
    revised_max_keep_alive_count = req.requested_max_keep_alive_count;
  };
  delete_subscription = λ id. 0;
  set_publishing_mode = λ id enabled. record { service_result = 0; first_result = some 0 };
  create_item = λ id req. record {
    status_code = 0;
    monitored_item_id = 100 + req.client_handle;
    revised_sampling_interval = req.sampling_interval;
    revised_queue_size = req.queue_size;
    event_filter_result = none;
  };
  modify_item = λ req. record {
    service_result = 0;
    first_result = some (record {
      status_code = 0;
      revised_sampling_interval = req.sampling_interval;
      revised_queue_size = req.queue_size;
      event_filter_result = none;
    });
  };
  delete_item = λ subscription item. 0;
  set_monitoring_mode =
      λ subscription item mode. record { service_result = 0; first_result = some 0 };
  fuzzy_compare = λ a b. a == b;
  to_double = λ v. none;
  to_uint = λ v. some 30;
}

stack-HasResults : HasResults stack
stack-HasResults = record {
  publishing = λ id enabled ok. (0, refl);
  monitoring = λ id item mode ok. (0, refl);
  items = λ req ok. (_, refl);
}

-- The attribute Value of the node with handle 7.
abbrev value_attribute : ℕ
value_attribute = 4096

abbrev fresh : Subscription
fresh = new_subscription stack default_parameters

fresh-IsConsistent : IsConsistent fresh
fresh-IsConsistent = Reachable-IsConsistent fresh (new stack default_parameters)

fresh_free : get_item_for_attribute 7 value_attribute fresh ≡ none
unfolding get_item_for_attribute new_subscription find
fresh_free = refl

fresh-HasFreshIds : HasFreshIds stack fresh
unfolding new_subscription find
fresh-HasFreshIds req = refl

abbrev monitoring : Subscription
monitoring = (add_attribute_monitored_item stack 7 value_attribute 1 default_parameters fresh).state

monitoring-Reachable : Reachable monitoring
monitoring-Reachable =
    added stack 7 value_attribute 1 default_parameters fresh (new stack default_parameters)
      fresh_free fresh-HasFreshIds

monitoring_item : get_item_for_attribute 7 value_attribute monitoring ≡ some 0
unfolding get_item_for_attribute new_subscription find find2 insert insert2
    add_attribute_monitored_item request_item
monitoring_item = refl

monitoring_accepted :
    (add_attribute_monitored_item stack 7 value_attribute 1 default_parameters fresh).returned
    ≡ true
unfolding add_attribute_monitored_item request_item
monitoring_accepted = refl

Reachable-IsConsistent_example : IsConsistent monitoring
Reachable-IsConsistent_example = Reachable-IsConsistent monitoring monitoring-Reachable

add_attribute_monitored_item-values_example :
    (req : CreateItemRequest) × ((id : ℕ) (value : Option DataValue)
      → monitored_value_updated id value monitoring ≡ (
          if (100 + req.client_handle) == id
          then some (data_change_occurred 7 (read_result value_attribute value) ∷ [])
          else monitored_value_updated id value fresh))
add_attribute_monitored_item-values_example =
    add_attribute_monitored_item-values stack 7 value_attribute 1 default_parameters fresh
      fresh-IsConsistent fresh_free fresh-HasFreshIds monitoring_accepted

remove_attribute_monitored_item-Removal_example :
    (r : Result Bool) × (remove_attribute_monitored_item stack 7 value_attribute monitoring
      ≡ some r)
    × Removal 7 value_attribute monitoring r
remove_attribute_monitored_item-Removal_example =
    remove_attribute_monitored_item-Removal stack 7 value_attribute 0 monitoring
      (Reachable-IsConsistent monitoring monitoring-Reachable) monitoring_item

remove_on_server-Cleared_example :
    (r : Result Bool) × (remove_on_server stack monitoring ≡ some r) × Cleared monitoring r
remove_on_server-Cleared_example =
    remove_on_server-Cleared stack monitoring
      (Reachable-IsConsistent monitoring monitoring-Reachable)

modify_monitoring-IsSound_example :
    IsSound
      (modify_monitoring stack 7 value_attribute Parameter.sampling_interval (double 5) monitoring)
modify_monitoring-IsSound_example =
    modify_monitoring-IsSound monitoring (Reachable-IsConsistent monitoring monitoring-Reachable)
      stack 7 value_attribute Parameter.sampling_interval (double 5) stack-HasResults

IsSound-Reachable_example :
    IsSound (remove_attribute_monitored_item stack 7 value_attribute monitoring)
    × IsSound (remove_on_server stack monitoring)
    × IsSound (
        modify_monitoring stack 7 value_attribute Parameter.publishing_enabled
          (boolean false)
          monitoring)
    × ((signals : List Signal) × (monitored_value_updated 101 none monitoring ≡ some signals))
    × ((signals : List Signal) × (event_received 101 [] monitoring ≡ some signals))
    × ((r : Result (Unit {0})) × (send_timeout_notification monitoring ≡ some r))
IsSound-Reachable_example =
    IsSound-Reachable monitoring stack 7 value_attribute Parameter.publishing_enabled
      (boolean false) 101 none [] monitoring-Reachable stack-HasResults

subscription_request-KeepsOthers_example :
    IfRequested
      (KeepsOthers Parameter.lifetime_count fresh)
      (subscription_request stack Parameter.lifetime_count (uint 30) fresh)
subscription_request-KeepsOthers_example =
    subscription_request-KeepsOthers stack Parameter.lifetime_count (uint 30) fresh

send_timeout_notification-TimedOut_example :
    (r : Result (Unit {0})) × (send_timeout_notification monitoring ≡ some r)
    × TimedOut monitoring r
send_timeout_notification-TimedOut_example =
    send_timeout_notification-TimedOut monitoring
      (Reachable-IsConsistent monitoring monitoring-Reachable)
