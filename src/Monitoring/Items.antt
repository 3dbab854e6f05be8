-- ===== src/Monitoring/Items.antt =====
-- QOpen62541Subscription::addAttributeMonitoredItem and removeAttributeMonitoredItem
-- (plugins/opcua/open62541/qopen62541subscription.cpp).
use qtopcua.Prelude.{
  ℕ, ◌+◌, ◌%◌, ◌^◌, Bool, true, false, ◌&&◌, [], ◌∷◌, Option, none, some, ◌==◌, if◌then◌else◌, find,
  insert, remove, insert2, remove2,
}
use qtopcua.Qt.Text.{size}
use qtopcua.Monitoring.Parameters.{
  Variant, invalid, event_filter, event_filter_result, is_valid, MonitoringParameters, only_status,
  create_filter,
}
use qtopcua.Monitoring.Stack.{Stack, CreateItemRequest, CreateItemResult, monitoring_enable_disable}
use qtopcua.Monitoring.Subscription.{
  MonitoredItem, Subscription, Result, good, bad_internal_error, bad_monitored_item_id_invalid,
  event_notifier, get_item_for_attribute,
}

abbrev pub is_event_filter : Variant → Bool
is_event_filter (event_filter f) = true
is_event_filter v = false

-- The request of addAttributeMonitoredItem, with the client handle that was counted up.
unfoldable pub create_item_request :
    Stack → Subscription → ℕ → ℕ → MonitoringParameters → Option Variant → CreateItemRequest
create_item_request stack s attr node_id settings filter = record {
  node_id = node_id;
  attribute = attr;
  index_range = if size settings.index_range == 0 then none else settings.index_range;
  monitoring_mode = settings.monitoring_mode;
  sampling_interval =
      if stack.fuzzy_compare settings.sampling_interval 0
      then s.m_interval
      else settings.sampling_interval;
  queue_size = if settings.queue_size == 0 then 1 else settings.queue_size;
  discard_oldest = settings.discard_oldest;
  client_handle = s.m_client_handle;
  filter = filter;
  is_event = attr == event_notifier && is_event_filter settings.filter;
}

-- The parameters of a new item, and those that are signalled, which have its filter result.
abbrev pub item_parameters :
    Subscription → MonitoringParameters → CreateItemResult → MonitoringParameters
item_parameters s settings res = record settings {
  subscription_id = s.m_subscription_id;
  publishing_interval = s.m_interval;
  max_keep_alive_count = s.m_max_keepalive_count;
  lifetime_count = s.m_lifetime_count;
  status_code = good;
  sampling_interval = res.revised_sampling_interval;
  queue_size = res.revised_queue_size;
  monitored_item_id = res.monitored_item_id;
}

abbrev pub variant_of_result : Option ℕ → Variant
variant_of_result none = invalid
variant_of_result (some r) = event_filter_result r

abbrev pub new_item : ℕ → ℕ → MonitoringParameters → CreateItemResult → Subscription → MonitoredItem
new_item handle attr settings res s = record {
  handle = handle;
  attr = attr;
  monitored_item_id = res.monitored_item_id;
  client_handle = s.m_client_handle;
  parameters = item_parameters s settings res;
}

-- The state with the new object in both hashes.
abbrev pub with_item : ℕ → ℕ → MonitoringParameters → CreateItemResult → Subscription → Subscription
with_item handle attr settings res s = record s {
  m_node_handle_to_item_mapping =
      insert2 handle attr s.next_address s.m_node_handle_to_item_mapping;
  m_item_id_to_item_mapping =
      insert res.monitored_item_id s.next_address s.m_item_id_to_item_mapping;
  heap = insert s.next_address (new_item handle attr settings res s) s.heap;
  next_address = s.next_address + 1;
}

-- What follows the answer to the request.
abbrev pub item_created :
    ℕ → ℕ → MonitoringParameters → CreateItemResult → Subscription → Result Bool
item_created handle attr settings res s =
    if res.status_code == good
    then record {
      returned = true;
      state = with_item handle attr settings res s;
      signals =
          monitoring_enable_disable handle attr true (record (item_parameters s settings res) {
            filter_result = variant_of_result res.event_filter_result;
          })
          ∷ [];
    }
    else record {
      returned = false;
      state = s;
      signals = monitoring_enable_disable handle attr true (only_status res.status_code) ∷ [];
    }

abbrev pub counted : Subscription → Subscription
counted s = record s { m_client_handle = (s.m_client_handle + 1) % 2 ^ 32 }

-- The request with a filter or none, and what follows.
unfoldable pub request_item :
    Stack → ℕ → ℕ → ℕ → MonitoringParameters → Option Variant → Subscription → Result Bool
unfolding create_item_request
request_item stack handle attr node_id settings filter s =
    item_created handle attr settings
      (stack.create_item s.m_subscription_id
        (create_item_request stack s attr node_id settings filter))
      s

unfoldable pub add_attribute_monitored_item :
    Stack → ℕ → ℕ → ℕ → MonitoringParameters → Subscription → Result Bool
unfolding request_item
add_attribute_monitored_item stack handle attr node_id settings before =
    let s = counted before in
    if is_valid settings.filter
    then (elim (create_filter settings.filter) [
      | none ↦ record {
        returned = false;
        state = s;
        signals = monitoring_enable_disable handle attr true (only_status bad_internal_error) ∷ [];
      }
      | some f ↦ request_item stack handle attr node_id settings (some f) s
    ])
    else request_item stack handle attr node_id settings none s

-- The object is deleted whatever the server answers.
unfoldable pub remove_attribute_monitored_item : Stack → ℕ → ℕ → Subscription → Option (Result Bool)
remove_attribute_monitored_item stack handle attr s = elim (get_item_for_attribute handle attr s) [
  | none ↦ some (record {
    returned = false;
    state = s;
    signals =
        monitoring_enable_disable handle attr false (only_status bad_monitored_item_id_invalid)
        ∷ [];
  })
  | some p ↦ elim (find p s.heap) [
    | none ↦ none
    | some item ↦ some (record {
      returned = true;
      state = record s {
        m_item_id_to_item_mapping = remove item.monitored_item_id s.m_item_id_to_item_mapping;
        m_node_handle_to_item_mapping = remove2 handle attr s.m_node_handle_to_item_mapping;
        heap = remove p s.heap;
      };
      signals =
          monitoring_enable_disable handle attr false
            (only_status (stack.delete_item s.m_subscription_id item.monitored_item_id))
          ∷ [];
    })
  ]
]
