-- ===== src/Client/State.antt =====
-- QOpcUaClientPrivate (opcua/client/qopcuaclientprivate.cpp): the connection state, the namespace
-- array and its monitoring. What a call emits and asks for is a list of actions in their order.
use Prim.Native.Nat.{bit_and}
use qtopcua.Prelude.{
  ℕ, ◌+◌, Bool, true, false, not, ◌&&◌, ◌||◌, List, [], ◌∷◌, ◌++◌, Option, none, some, ◌==◌,
  if◌then◌else◌,
}
use qtopcua.Qt.Text.{Text, text_eq}
use qtopcua.Nodes.Node.{value_attribute}
use qtopcua.Nodes.Requests.{ClientState, disconnected, connecting, connected, closing}

-- QOpcUaClient::ClientError
abbrev pub no_error : ℕ
no_error = 0

abbrev pub access_denied : ℕ
access_denied = 2

-- The state as the number of its enumerator.
abbrev pub state_number : ClientState → ℕ
state_number disconnected = 0
state_number connecting = 1
state_number connected = 2
state_number closing = 3

abbrev pub state_eq : ClientState → ClientState → Bool
state_eq a b = state_number a == state_number b

-- The signals of QOpcUaClient, and the calls of the implementation and of the node of the
-- namespace array.
pub data Action : Type 0 where
  error_changed : (error : ℕ) → Action
  state_changed : (state : ClientState) → Action
  connected_signal : Action
  disconnected_signal : Action
  namespace_array_changed : (namespaces : List Text) → Action
  namespace_array_updated : (namespaces : List Text) → Action
  connect_to_endpoint : (endpoint : ℕ) → Action
  disconnect_from_endpoint : Action
  create_node : Action
  read_value : Action
  enable_monitoring : (interval : ℕ) → Action
  disable_monitoring : Action

-- QOpcUaEndpointDescription and QOpcUaPkiConfiguration, by what the client asks of them. A number
-- stands for the endpoint.
pub record Endpoint : Type 0 where
  pub number : ℕ
  pub is_secure : Bool

pub record Pki : Type 0 where
  pub is_pki_valid : Bool
  pub is_key_and_certificate_file_set : Bool

-- `m_namespace_array_node` says whether the node exists; `connections` counts how often the two
-- lambdas of setupNamespaceArrayMonitoring were connected to it.
pub record Client : Type 0 where
  pub m_state : ClientState
  pub m_error : ℕ
  pub m_endpoint : Option Endpoint
  pub m_pki_config : Pki
  pub m_namespace_array : List Text
  pub m_namespace_array_node : Bool
  pub m_enable_namespace_array_autoupdate : Bool
  pub m_namespace_array_autoupdate_enabled : Bool
  pub m_namespace_array_update_interval : ℕ
  pub connections : ℕ

-- The client after a call, and what the call has done.
pub record Outcome : Type 0 where
  pub client : Client
  pub actions : List Action

abbrev pub called : Action → Client → Outcome
called action c = record { client = c; actions = action ∷ [] }

-- One call after the other.
unfoldable pub next : (Client → Outcome) → Outcome → Outcome
next f o =
    let after = f o.client in record { client = after.client; actions = o.actions ++ after.actions }

-- The constructor.
abbrev pub new_client : Client
new_client = record {
  m_state = disconnected;
  m_error = no_error;
  m_endpoint = none;
  m_pki_config = record { is_pki_valid = false; is_key_and_certificate_file_set = false };
  m_namespace_array = [];
  m_namespace_array_node = false;
  m_enable_namespace_array_autoupdate = false;
  m_namespace_array_autoupdate_enabled = false;
  m_namespace_array_update_interval = 1000;
  connections = 0;
}

unfoldable pub error_signals : ClientState → ℕ → Client → List Action
error_signals state error c =
    if not (error == no_error) && not (c.m_error == error) then error_changed error ∷ [] else []

abbrev pub edge_signal : ClientState → List Action
edge_signal connected = connected_signal ∷ []
edge_signal disconnected = disconnected_signal ∷ []
edge_signal connecting = []
edge_signal closing = []

unfoldable pub state_signals : ClientState → Client → List Action
state_signals state c =
    if state_eq c.m_state state then [] else state_changed state ∷ edge_signal state

unfoldable pub set_state_and_error : ClientState → ℕ → Client → Outcome
unfolding error_signals state_signals
set_state_and_error state error c = record {
  client = record c {
    m_state = state;
    m_error = error;
    m_namespace_array = if state_eq state disconnected then [] else c.m_namespace_array;
  };
  actions = error_signals state error c ++ state_signals state c;
}

unfoldable pub client_connect_to_endpoint : Endpoint → Client → Outcome
unfolding set_state_and_error
client_connect_to_endpoint endpoint c =
    if endpoint.is_secure && not c.m_pki_config.is_pki_valid
    then set_state_and_error c.m_state access_denied c
    else if endpoint.is_secure && not c.m_pki_config.is_key_and_certificate_file_set
    then set_state_and_error c.m_state access_denied c
    else record {
      client = record c { m_endpoint = some endpoint };
      actions = connect_to_endpoint endpoint.number ∷ [];
    }

unfoldable pub client_disconnect_from_endpoint : Client → Outcome
unfolding set_state_and_error next
client_disconnect_from_endpoint c =
    if state_eq c.m_state connected
    then next (called disconnect_from_endpoint) (set_state_and_error closing no_error c)
    else record { client = c; actions = [] }

-- `node` says whether the implementation gives a node. What the read returns is left out.
unfoldable pub update_namespace_array : Bool → Client → Outcome
update_namespace_array node c =
    if not (state_eq c.m_state connected)
    then record { client = c; actions = [] }
    else if c.m_namespace_array_node
    then record { client = c; actions = read_value ∷ [] }
    else if node
    then record {
      client = record c { m_namespace_array_node = true };
      actions = create_node ∷ read_value ∷ [];
    }
    else record { client = c; actions = create_node ∷ [] }

abbrev pub texts_eq : List Text → List Text → Bool
texts_eq [] [] = true
texts_eq [] (y ∷ ys) = false
texts_eq (x ∷ xs) [] = false
texts_eq (x ∷ xs) (y ∷ ys) = text_eq x y && texts_eq xs ys

-- `value` is the list of the node's value attribute, and none if it is no list.
unfoldable pub namespace_array_read : ℕ → Option (List Text) → Client → Outcome
namespace_array_read attr none c = record {
  client = record c { m_namespace_array = [] };
  actions = namespace_array_updated [] ∷ [];
}
namespace_array_read attr (some value) c =
    if bit_and attr value_attribute == 0
    then record {
      client = record c { m_namespace_array = [] };
      actions = namespace_array_updated [] ∷ [];
    }
    else if texts_eq value c.m_namespace_array
    then record { client = c; actions = namespace_array_updated c.m_namespace_array ∷ [] }
    else record {
      client = record c { m_namespace_array = value };
      actions = namespace_array_changed value ∷ namespace_array_updated value ∷ [];
    }

unfoldable pub setup_namespace_array_monitoring : Client → Outcome
setup_namespace_array_monitoring c =
    if not c.m_namespace_array_node || not (state_eq c.m_state connected)
    then record { client = c; actions = [] }
    else if not c.m_enable_namespace_array_autoupdate && c.m_namespace_array_autoupdate_enabled
    then record {
      client = record c { m_namespace_array_autoupdate_enabled = false };
      actions = disable_monitoring ∷ [];
    }
    else if c.m_enable_namespace_array_autoupdate && not c.m_namespace_array_autoupdate_enabled
    then record {
      client = record c {
        m_namespace_array_autoupdate_enabled = true;
        connections = c.connections + 1;
      };
      actions = enable_monitoring c.m_namespace_array_update_interval ∷ [];
    }
    else record { client = c; actions = [] }
