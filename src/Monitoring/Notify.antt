-- ===== src/Monitoring/Notify.antt =====
-- What QOpen62541Subscription does with the notifications of the server
-- (plugins/opcua/open62541/qopen62541subscription.cpp): values, events, and the timeout.
use qtopcua.Prelude.{ℕ, true, List, [], ◌∷◌, ◌++◌, Option, none, some, length, Map, find}
use qtopcua.Monitoring.Stack.{
  DataValue, ReadResult, Signal, data_change_occurred, event_occurred, timeout,
}
use qtopcua.Monitoring.Subscription.{MonitoredItem, Subscription, Result, good, objects}

-- The result for a value of an attribute; `none` stands for no value.
abbrev pub read_result : ℕ → Option DataValue → ReadResult
read_result attr none = record {
  attribute = none;
  value = none;
  server_timestamp = none;
  source_timestamp = none;
  status_code = good;
}
read_result attr (some v) = record {
  attribute = some attr;
  value = some v.value;
  server_timestamp = v.server_timestamp;
  source_timestamp = v.source_timestamp;
  status_code = good;
}

-- The object of a monitored item id, and none where there is no entry or the pointer dangles.
abbrev pub notify : (MonitoredItem → Signal) → ℕ → Subscription → Option (List Signal)
notify signal mon_id s = elim (find mon_id s.m_item_id_to_item_mapping) [
  | none ↦ some []
  | some p ↦ elim (find p s.heap) [ none ↦ none | some item ↦ some (signal item ∷ []) ]
]

-- The signals; the state does not change. none where a pointer that dangles is used.
unfoldable pub monitored_value_updated : ℕ → Option DataValue → Subscription → Option (List Signal)
monitored_value_updated mon_id value s =
    notify (λ item. data_change_occurred item.handle (read_result item.attr value)) mon_id s

unfoldable pub event_received : ℕ → List ℕ → Subscription → Option (List Signal)
event_received mon_id fields s = notify (λ item. event_occurred item.handle fields) mon_id s

unfoldable pub monitored_items_count : Subscription → ℕ
monitored_items_count s = length s.m_item_id_to_item_mapping

-- The objects of all inner hashes.
unfoldable pub all_objects : Map (Map ℕ) → Map MonitoredItem → Option (List MonitoredItem)
all_objects [] heap = some []
all_objects ((handle, entry) ∷ entries) heap = elim (objects entry heap) [
  | none ↦ none
  | some items ↦ elim (all_objects entries heap) [
    | none ↦ none
    | some others ↦ some (items ++ others)
  ]
]

abbrev pub handles_and_attributes : List MonitoredItem → List (ℕ × ℕ)
handles_and_attributes [] = []
handles_and_attributes (item ∷ items) = (item.handle, item.attr) ∷ handles_and_attributes items

abbrev pub timeout_result : List MonitoredItem → Subscription → Result (Unit {0})
timeout_result items s = record {
  returned = tt;
  state = record s { m_timeout = true };
  signals = timeout (handles_and_attributes items) ∷ [];
}

unfoldable pub send_timeout_notification : Subscription → Option (Result (Unit {0}))
send_timeout_notification s = elim (all_objects s.m_node_handle_to_item_mapping s.heap) [
  | none ↦ none
  | some items ↦ some (timeout_result items s)
]
