-- ===== src/Nodes/Dispatch.antt =====
-- How results of the backend get to the nodes: the slots of QOpcUaClientImpl
-- (opcua/client/qopcuaclientimpl.cpp), each followed by the slot of the node that it signals.
use qtopcua.Prelude.{ℕ, Bool, List, [], ◌∷◌, ◌++◌, Option, none, some, find, insert}
use qtopcua.Qt.Text.{QString}
use qtopcua.Monitoring.Parameters.{MonitoringParameters}
use qtopcua.Monitoring.Stack.{ReadResult, Signal}
use qtopcua.Nodes.Node.{
  Node, NodeSignal, Handled, method_call_finished, browse_finished, resolve_browse_path_finished,
  event_occurred, attribute_of, attributes_read, attribute_written_handler, data_change_handler,
  enable_disable_handler, status_changed_handler,
}
use qtopcua.Nodes.Handles.{ClientImpl}

-- The client after a result, and the signals of the node that it went to.
pub record Delivered : Type 0 where
  pub client : ClientImpl
  pub signals : List NodeSignal

-- The node of a handle gets a signal, if the handle is known and the object still exists.
unfoldable pub deliver : (Node → Handled) → ℕ → ClientImpl → Delivered
deliver handler handle c = elim (find handle c.m_handles) [
  | none ↦ record { client = c; signals = [] }
  | some p ↦ elim (find p c.objects) [
    | none ↦ record { client = c; signals = [] }
    | some obj ↦
        let handled = handler obj.front in
        record {
          client = record c { objects = insert p (record obj { front = handled.node }) c.objects };
          signals = handled.signals;
        }
  ]
]

-- A signal of the node that leaves its caches.
abbrev pub passed_on : NodeSignal → Node → Handled
passed_on signal n = record { node = n; signals = signal ∷ [] }

unfoldable pub handle_attributes_read : ℕ → List ReadResult → ℕ → ClientImpl → Delivered
handle_attributes_read handle attr service_result =
    deliver (attributes_read attr service_result) handle

unfoldable pub handle_attribute_written : ℕ → ℕ → Option ℕ → ℕ → ClientImpl → Delivered
handle_attribute_written handle attr value status =
    deliver (attribute_written_handler attr value status) handle

unfoldable pub handle_data_change_occurred : ℕ → ReadResult → ClientImpl → Delivered
handle_data_change_occurred handle value =
    deliver (data_change_handler (attribute_of value) value) handle

unfoldable pub handle_monitoring_enable_disable :
    ℕ → ℕ → Bool → MonitoringParameters → ClientImpl → Delivered
handle_monitoring_enable_disable handle attr subscribe status =
    deliver (enable_disable_handler attr subscribe status) handle

unfoldable pub handle_monitoring_status_changed :
    ℕ → ℕ → ℕ → MonitoringParameters → ClientImpl → Delivered
handle_monitoring_status_changed handle attr items param =
    deliver (status_changed_handler attr items param) handle

unfoldable pub handle_method_call_finished : ℕ → QString → Option ℕ → ℕ → ClientImpl → Delivered
handle_method_call_finished handle method result status =
    deliver (passed_on (method_call_finished method result status)) handle

unfoldable pub handle_browse_finished : ℕ → List ℕ → ℕ → ClientImpl → Delivered
handle_browse_finished handle children status =
    deliver (passed_on (browse_finished children status)) handle

unfoldable pub handle_resolve_browse_path_finished :
    ℕ → List ℕ → List ℕ → ℕ → ClientImpl → Delivered
handle_resolve_browse_path_finished handle targets path status =
    deliver (passed_on (resolve_browse_path_finished targets path status)) handle

unfoldable pub handle_new_event : ℕ → List ℕ → ClientImpl → Delivered
handle_new_event handle fields = deliver (passed_on (event_occurred fields)) handle

-- The connections from a backend's signals to the slots. `timeout` is not one of a backend.
unfoldable pub receive : Signal → ClientImpl → Delivered
unfolding handle_monitoring_enable_disable handle_monitoring_status_changed
    handle_data_change_occurred handle_new_event
receive (Signal.monitoring_enable_disable handle attr subscribe status) c =
    handle_monitoring_enable_disable handle attr subscribe status c
receive (Signal.monitoring_status_changed handle attr items status) c =
    handle_monitoring_status_changed handle attr items status c
receive (Signal.data_change_occurred handle value) c = handle_data_change_occurred handle value c
receive (Signal.event_occurred handle fields) c = handle_new_event handle fields c
receive (Signal.timeout items) c = record { client = c; signals = [] }

-- Signals one after the other.
unfoldable pub receive_all : List Signal → ClientImpl → Delivered
receive_all [] c = record { client = c; signals = [] }
receive_all (signal ∷ signals) c =
    let first = receive signal c in
    let rest = receive_all signals first.client in
    record { client = rest.client; signals = first.signals ++ rest.signals }
