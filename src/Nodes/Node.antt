-- ===== src/Nodes/Node.antt =====
-- QOpcUaNodePrivate (opcua/client/qopcuanode_p.h): the caches of a node, and what each signal of
-- the implementation does to them; the getters of QOpcUaNode (opcua/client/qopcuanode.cpp).
use Prim.Native.Nat.{bit_and, bit_or}
use qtopcua.Prelude.{
  ℕ, ◌^◌, Bool, true, false, not, ◌&&◌, List, [], ◌∷◌, Option, none, some, ◌==◌, if◌then◌else◌, Map,
  find, insert, remove,
}
use qtopcua.Qt.Text.{QString}
use qtopcua.Monitoring.Parameters.{
  Parameter, parameter_flag, Variant, invalid, data_change_filter, event_filter,
  event_filter_result, MonitoringParameters, only_status, bad_no_entry_exists,
}
use qtopcua.Monitoring.Stack.{ReadResult}
use qtopcua.Monitoring.Subscription.{good}

abbrev pub value_attribute : ℕ
value_attribute = 2 ^ 12

abbrev pub bad_entry_exists : ℕ
bad_entry_exists = 0x809F0000

-- QOpcUaReadResult::attribute, which is Value if none was set.
abbrev pub attribute_of : ReadResult → ℕ
attribute_of r = elim r.attribute [ none ↦ value_attribute | some attr ↦ attr ]

-- A default-constructed QOpcUaReadResult.
abbrev pub default_result : ReadResult
default_result = record {
  attribute = none;
  value = none;
  server_timestamp = none;
  source_timestamp = none;
  status_code = good;
}

-- The signals of QOpcUaNode. A number stands for a value, an event field, a reference or a target.
pub data NodeSignal : Type 0 where
  attribute_updated : (attr : ℕ) (value : Option ℕ) → NodeSignal
  attribute_read : (attrs : ℕ) → NodeSignal
  attribute_written : (attr status : ℕ) → NodeSignal
  data_change_occurred : (attr : ℕ) (value : Option ℕ) → NodeSignal
  enable_monitoring_finished : (attr status : ℕ) → NodeSignal
  disable_monitoring_finished : (attr status : ℕ) → NodeSignal
  monitoring_status_changed : (attr items status : ℕ) → NodeSignal
  method_call_finished : (method : QString) (result : Option ℕ) (status : ℕ) → NodeSignal
  browse_finished : (children : List ℕ) (status : ℕ) → NodeSignal
  resolve_browse_path_finished : (targets path : List ℕ) (status : ℕ) → NodeSignal
  event_occurred : (fields : List ℕ) → NodeSignal

pub record Node : Type 0 where
  pub m_node_attributes : Map ReadResult
  pub m_monitoring_status : Map MonitoringParameters

-- The node after a signal of its implementation, and the signals that it emits in their order.
pub record Handled : Type 0 where
  pub node : Node
  pub signals : List NodeSignal

-- The entry that is stored for a result.
unfoldable pub stored_result : ℕ → ReadResult → ReadResult
stored_result service_result entry =
    if service_result == good
    then entry
    else record entry { status_code = service_result; value = none }

unfoldable pub store_results : ℕ → List ReadResult → Map ReadResult → Map ReadResult
store_results service_result [] m = m
store_results service_result (entry ∷ attr) m =
    store_results service_result attr
      (insert (attribute_of entry) (stored_result service_result entry) m)

unfoldable pub updated_signals : ℕ → List ReadResult → List NodeSignal
updated_signals updated [] = attribute_read updated ∷ []
updated_signals updated (entry ∷ attr) =
    attribute_updated (attribute_of entry) entry.value
    ∷ updated_signals (bit_or updated (attribute_of entry)) attr

unfoldable pub attributes_read : List ReadResult → ℕ → Node → Handled
attributes_read attr service_result n = record {
  node = record n { m_node_attributes = store_results service_result attr n.m_node_attributes };
  signals = updated_signals 0 attr;
}

-- `m_nodeAttributes[attr]`, which creates the entry.
abbrev pub entry_of : Option ReadResult → ReadResult
entry_of none = default_result
entry_of (some r) = r

unfoldable pub attribute_written_handler : ℕ → Option ℕ → ℕ → Node → Handled
attribute_written_handler attr value status n =
    let entry = record (entry_of (find attr n.m_node_attributes)) { status_code = status } in
    if status == good
    then record {
      node = record n {
        m_node_attributes = insert attr (record entry { value = value }) n.m_node_attributes;
      };
      signals = attribute_updated attr value ∷ attribute_written attr status ∷ [];
    }
    else record {
      node = record n { m_node_attributes = insert attr entry n.m_node_attributes };
      signals = attribute_written attr status ∷ [];
    }

unfoldable pub data_change_handler : ℕ → ReadResult → Node → Handled
data_change_handler attr value n = record {
  node = record n { m_node_attributes = insert attr value n.m_node_attributes };
  signals = data_change_occurred attr value.value ∷ attribute_updated attr value.value ∷ [];
}

unfoldable pub enable_disable_handler : ℕ → Bool → MonitoringParameters → Node → Handled
enable_disable_handler attr true status n = record {
  node =
      if status.status_code == bad_entry_exists
      then n
      else record n { m_monitoring_status = insert attr status n.m_monitoring_status };
  signals = enable_monitoring_finished attr status.status_code ∷ [];
}
enable_disable_handler attr false status n = record {
  node = record n { m_monitoring_status = remove attr n.m_monitoring_status };
  signals = disable_monitoring_finished attr status.status_code ∷ [];
}

abbrev pub has_flag : ℕ → Parameter → Bool
has_flag items p = not (bit_and items (parameter_flag p) == 0)

-- The filter and the filter result that a status changes, by what their QVariants hold.
abbrev pub merged_filter : Variant → Variant → Variant
merged_filter old (data_change_filter f) = data_change_filter f
merged_filter old (event_filter f) = event_filter f
merged_filter old invalid = invalid
merged_filter old value = old

abbrev pub merged_filter_result : Variant → Variant → Variant
merged_filter_result old (event_filter_result r) = event_filter_result r
merged_filter_result old invalid = invalid
merged_filter_result old value = old

-- The status after a change of the parameters that `items` flags.
unfoldable pub merged : ℕ → MonitoringParameters → MonitoringParameters → MonitoringParameters
merged items param it = record it {
  publishing_enabled =
      if has_flag items Parameter.publishing_enabled
      then param.publishing_enabled
      else it.publishing_enabled;
  publishing_interval =
      if has_flag items Parameter.publishing_interval
      then param.publishing_interval
      else it.publishing_interval;
  lifetime_count =
      if has_flag items Parameter.lifetime_count then param.lifetime_count else it.lifetime_count;
  max_keep_alive_count =
      if has_flag items Parameter.max_keep_alive_count
      then param.max_keep_alive_count
      else it.max_keep_alive_count;
  max_notifications_per_publish =
      if has_flag items Parameter.max_notifications_per_publish
      then param.max_notifications_per_publish
      else it.max_notifications_per_publish;
  priority = if has_flag items Parameter.priority then param.priority else it.priority;
  sampling_interval =
      if has_flag items Parameter.sampling_interval
      then param.sampling_interval
      else it.sampling_interval;
  filter =
      if has_flag items Parameter.filter then merged_filter it.filter param.filter else it.filter;
  filter_result =
      if has_flag items Parameter.filter
      then merged_filter_result it.filter_result param.filter_result
      else it.filter_result;
  queue_size = if has_flag items Parameter.queue_size then param.queue_size else it.queue_size;
  discard_oldest =
      if has_flag items Parameter.discard_oldest then param.discard_oldest else it.discard_oldest;
  monitoring_mode =
      if has_flag items Parameter.monitoring_mode
      then param.monitoring_mode
      else it.monitoring_mode;
}

unfoldable pub status_changed_map :
    ℕ → ℕ → MonitoringParameters → Map MonitoringParameters → Map MonitoringParameters
status_changed_map attr items param m = elim (find attr m) [
  | none ↦ m
  | some it ↦ if param.status_code == good then insert attr (merged items param it) m else m
]

unfoldable pub status_changed_handler : ℕ → ℕ → MonitoringParameters → Node → Handled
status_changed_handler attr items param n = record {
  node = record n {
    m_monitoring_status = status_changed_map attr items param n.m_monitoring_status;
  };
  signals = monitoring_status_changed attr items param.status_code ∷ [];
}

-- The attributes that the destructor asks to disable; nothing is asked if they are 0.
unfoldable pub remaining_attributes : Map MonitoringParameters → ℕ → ℕ
remaining_attributes [] attr = attr
remaining_attributes ((key, it) ∷ m) attr =
    remaining_attributes m (if it.status_code == good then bit_or attr key else attr)

unfoldable pub destroyed : Bool → Node → Option ℕ
destroyed impl n =
    let attr = remaining_attributes n.m_monitoring_status 0 in
    if not (attr == 0) && impl then some attr else none

-- The getters of the caches.
unfoldable pub attribute : ℕ → Node → Option ℕ
attribute attr n = elim (find attr n.m_node_attributes) [ none ↦ none | some it ↦ it.value ]

unfoldable pub attribute_error : ℕ → Node → ℕ
attribute_error attr n = elim (find attr n.m_node_attributes) [
  | none ↦ bad_no_entry_exists
  | some it ↦ it.status_code
]

unfoldable pub source_timestamp : ℕ → Node → Option ℕ
source_timestamp attr n = elim (find attr n.m_node_attributes) [
  | none ↦ none
  | some it ↦ it.source_timestamp
]

unfoldable pub server_timestamp : ℕ → Node → Option ℕ
server_timestamp attr n = elim (find attr n.m_node_attributes) [
  | none ↦ none
  | some it ↦ it.server_timestamp
]

unfoldable pub monitoring_status : ℕ → Node → MonitoringParameters
monitoring_status attr n = elim (find attr n.m_monitoring_status) [
  | none ↦ only_status bad_no_entry_exists
  | some it ↦ it
]
