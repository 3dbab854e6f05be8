-- ===== src/Nodes/Requests.antt =====
-- The requests of QOpcUaNode (opcua/client/qopcuanode.cpp): what it asks of its implementation.
-- `client` is the state of the client, and none once the client is deleted.
use Prim.Native.Nat.{bit_or}
use qtopcua.Prelude.{ℕ, Bool, true, false, List, [], ◌∷◌, Option, none, some}
use qtopcua.Qt.Text.{QString}
use qtopcua.Monitoring.Parameters.{
  Parameter, Variant, event_filter, data_change_filter, EventFilter, DataChangeFilter,
  MonitoringParameters,
}
use qtopcua.Monitoring.Subscription.{event_notifier}
use qtopcua.Nodes.Node.{value_attribute}

-- QOpcUaClient::ClientState
pub data ClientState : Type 0 where
  disconnected : ClientState
  connecting : ClientState
  connected : ClientState
  closing : ClientState

-- QOpcUaBrowseRequest; the direction is the number of its enumerator.
pub record BrowseRequest : Type 0 where
  pub browse_direction : ℕ
  pub reference_type_id : ℕ
  pub include_subtypes : Bool
  pub node_class_mask : ℕ

-- The calls of QOpcUaNodeImpl. Numbers stand for values, types, arguments and path elements.
pub data Request : Type 0 where
  read_attributes : (attrs : ℕ) (index_range : QString) → Request
  enable_monitoring : (attrs : ℕ) (settings : MonitoringParameters) → Request
  disable_monitoring : (attrs : ℕ) → Request
  modify_monitoring : (attr : ℕ) (item : Parameter) (value : Variant) → Request
  write_attribute : (attr value type : ℕ) (index_range : QString) → Request
  write_attributes : (to_write : List (ℕ × ℕ)) (type : ℕ) → Request
  browse : (request : BrowseRequest) → Request
  call_method : (method : QString) (args : List ℕ) → Request
  resolve_browse_path : (path : List ℕ) → Request

-- What a call returns, and the requests that it has made.
pub record Reply : Type 0 where
  pub returned : Bool
  pub requests : List Request

-- `answer` is what the implementation returns.
module _ (answer : Request → Bool) where
  unfoldable pub forwarded : Option ClientState → Request → Reply
  forwarded (some connected) request = record { returned = answer request; requests = request ∷ [] }
  forwarded (some closing) request = record { returned = false; requests = [] }
  forwarded (some connecting) request = record { returned = false; requests = [] }
  forwarded (some disconnected) request = record { returned = false; requests = [] }
  forwarded none request = record { returned = false; requests = [] }

  unfoldable pub read_attribute_range : Option ClientState → ℕ → QString → Reply
  unfolding forwarded
  read_attribute_range client attr index_range =
      forwarded client (read_attributes (bit_or 0 attr) index_range)

  unfoldable pub node_read_attributes : Option ClientState → ℕ → Reply
  unfolding forwarded
  node_read_attributes client attrs = forwarded client (read_attributes attrs none)

  unfoldable pub read_value_attribute : Option ClientState → Reply
  unfolding node_read_attributes
  read_value_attribute client = node_read_attributes client value_attribute

  unfoldable pub node_enable_monitoring : Option ClientState → ℕ → MonitoringParameters → Reply
  unfolding forwarded
  node_enable_monitoring client attrs settings = forwarded client (enable_monitoring attrs settings)

  unfoldable pub node_disable_monitoring : Option ClientState → ℕ → Reply
  unfolding forwarded
  node_disable_monitoring client attrs = forwarded client (disable_monitoring attrs)

  unfoldable pub node_modify_monitoring : Option ClientState → ℕ → Parameter → Variant → Reply
  unfolding forwarded
  node_modify_monitoring client attr item value =
      forwarded client (modify_monitoring attr item value)

  unfoldable pub modify_event_filter : Option ClientState → EventFilter → Reply
  unfolding node_modify_monitoring
  modify_event_filter client filter =
      node_modify_monitoring client event_notifier Parameter.filter (event_filter filter)

  unfoldable pub modify_data_change_filter : Option ClientState → ℕ → DataChangeFilter → Reply
  unfolding node_modify_monitoring
  modify_data_change_filter client attr filter =
      node_modify_monitoring client attr Parameter.filter (data_change_filter filter)

  unfoldable pub write_attribute_range : Option ClientState → ℕ → ℕ → QString → ℕ → Reply
  unfolding forwarded
  write_attribute_range client attr value index_range type =
      forwarded client (write_attribute attr value type index_range)

  unfoldable pub node_write_attribute : Option ClientState → ℕ → ℕ → ℕ → Reply
  unfolding forwarded
  node_write_attribute client attr value type =
      forwarded client (write_attribute attr value type none)

  unfoldable pub write_value_attribute : Option ClientState → ℕ → ℕ → Reply
  unfolding node_write_attribute
  write_value_attribute client value type = node_write_attribute client value_attribute value type

  unfoldable pub node_write_attributes : Option ClientState → List (ℕ × ℕ) → ℕ → Reply
  unfolding forwarded
  node_write_attributes client to_write type = forwarded client (write_attributes to_write type)

  unfoldable pub browse_children : Option ClientState → ℕ → ℕ → Reply
  unfolding forwarded
  browse_children client reference_type mask = forwarded client (
      browse (record {
        browse_direction = 0;
        reference_type_id = reference_type;
        include_subtypes = true;
        node_class_mask = mask;
      }))

  unfoldable pub node_browse : Option ClientState → BrowseRequest → Reply
  unfolding forwarded
  node_browse client request = forwarded client (browse request)

  unfoldable pub node_call_method : Option ClientState → QString → List ℕ → Reply
  unfolding forwarded
  node_call_method client method args = forwarded client (call_method method args)

  unfoldable pub node_resolve_browse_path : Option ClientState → List ℕ → Reply
  unfolding forwarded
  node_resolve_browse_path client path = forwarded client (resolve_browse_path path)
