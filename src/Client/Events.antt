-- ===== src/Client/Events.antt =====
-- Everything that may happen to a client (opcua/client/qopcuaclientprivate.cpp and
-- opcua/client/qopcuaclient.cpp): calls of an application, and signals of the implementation and of
-- the node of the namespace array.
use qtopcua.Prelude.{ℕ, zero, suc, Bool, false, List, [], ◌∷◌, ◌++◌, Option, ◌==◌, if◌then◌else◌}
use qtopcua.Qt.Text.{Text}
use qtopcua.Nodes.Requests.{ClientState, connected}
use qtopcua.Client.State.{
  Endpoint, Pki, Client, Outcome, next, set_state_and_error, state_eq, client_connect_to_endpoint,
  client_disconnect_from_endpoint, update_namespace_array, namespace_array_read,
  setup_namespace_array_monitoring,
}

-- `value` is the node's value attribute at that time, and `interval` its publishing interval.
pub data Event : Type 0 where
  state_and_or_error_changed : (state : ClientState) (error : ℕ) (node : Bool) → Event
  connect : (endpoint : Endpoint) → Event
  disconnect : Event
  set_pki_configuration : (pki : Pki) → Event
  update : (node : Bool) → Event
  set_namespace_autoupdate : (is_enabled : Bool) → Event
  set_namespace_autoupdate_interval : (interval : ℕ) → Event
  attribute_read : (attr : ℕ) (value : Option (List Text)) → Event
  attribute_updated : (attr : ℕ) (value : Option (List Text)) → Event
  enable_monitoring_finished : (status interval : ℕ) → Event

-- The slot for a change of the state or the error.
unfoldable pub state_changed_slot : ClientState → ℕ → Bool → Client → Outcome
unfolding next update_namespace_array setup_namespace_array_monitoring
state_changed_slot state error node c =
    if state_eq state connected
    then next setup_namespace_array_monitoring
        (next (update_namespace_array node) (set_state_and_error state error c))
    else set_state_and_error state error c

-- One of the two slots of setupNamespaceArrayMonitoring.
unfoldable pub monitoring_enabled_slot : ℕ → ℕ → Client → Outcome
monitoring_enabled_slot status interval c = record {
  client =
      if status == 0 then record c { m_namespace_array_update_interval = interval } else record c {
        m_namespace_array_autoupdate_enabled = false;
        m_enable_namespace_array_autoupdate = false;
      };
  actions = [];
}

-- A slot that is connected several times is called as often.
unfoldable pub each_connection : ℕ → (Client → Outcome) → Client → Outcome
each_connection zero slot c = record { client = c; actions = [] }
each_connection (suc n) slot c =
    let first = slot c in
    let rest = each_connection n slot first.client in
    record { client = rest.client; actions = first.actions ++ rest.actions }

unfoldable pub set_namespace_autoupdate_call : Bool → Client → Outcome
unfolding setup_namespace_array_monitoring
set_namespace_autoupdate_call is_enabled c =
    setup_namespace_array_monitoring (record c { m_enable_namespace_array_autoupdate = is_enabled })

unfoldable pub set_namespace_autoupdate_interval_call : ℕ → Client → Outcome
unfolding setup_namespace_array_monitoring
set_namespace_autoupdate_interval_call interval c =
    setup_namespace_array_monitoring (record c { m_namespace_array_update_interval = interval })

unfoldable pub handle_event : Event → Client → Outcome
handle_event (state_and_or_error_changed state error node) c = state_changed_slot state error node c
handle_event (connect endpoint) c = client_connect_to_endpoint endpoint c
handle_event disconnect c = client_disconnect_from_endpoint c
handle_event (set_pki_configuration pki) c = record {
  client = record c { m_pki_config = pki };
  actions = [];
}
handle_event (update node) c = update_namespace_array node c
handle_event (set_namespace_autoupdate is_enabled) c = set_namespace_autoupdate_call is_enabled c
handle_event (set_namespace_autoupdate_interval interval) c =
    set_namespace_autoupdate_interval_call interval c
handle_event (attribute_read attr value) c = namespace_array_read attr value c
handle_event (attribute_updated attr value) c =
    each_connection c.connections (namespace_array_read attr value) c
handle_event (enable_monitoring_finished status interval) c =
    each_connection c.connections (monitoring_enabled_slot status interval) c

unfoldable pub run : List Event → Client → Outcome
run [] c = record { client = c; actions = [] }
run (event ∷ events) c =
    let first = handle_event event c in
    let rest = run events first.client in
    record { client = rest.client; actions = first.actions ++ rest.actions }
