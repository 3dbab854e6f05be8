-- ===== src/Gds/State.antt =====
-- QOpcUaGdsClientPrivate (opcua/client/qopcuagdsclient_p.h and qopcuagdsclient.cpp): its members,
-- what it emits and asks for, and what it meets.
use qtopcua.Prelude.{
  ℕ, ◌-◌, ◌%◌, ◌^◌, Bool, false, List, [], ◌∷◌, ◌++◌, Option, none, some, if◌then◌else◌, Map, find,
  insert,
}
use qtopcua.Qt.Text.{Text, Bytes, QString}
use qtopcua.Encoding.Records.{ApplicationRecord}

-- QOpcUaGdsClient::State
pub data State : Type 0 where
  idle : State
  backend_instantiated : State
  connecting : State
  connected : State
  registering_application : State
  application_registered : State
  error : State

-- QOpcUaGdsClient::Error
pub data Error : Type 0 where
  no_error : Error
  invalid_backend : Error
  invalid_endpoint : Error
  connection_error : Error
  directory_node_not_found : Error
  failed_to_register_application : Error
  failed_to_unregister_application : Error
  failed_to_get_certificate_status : Error
  failed_to_get_certificate : Error

-- The names of elementsToResolve, by their places in it.
abbrev pub get_application_name : ℕ
get_application_name = 0

abbrev pub find_applications_name : ℕ
find_applications_name = 1

abbrev pub register_application_name : ℕ
register_application_name = 2

abbrev pub unregister_application_name : ℕ
unregister_application_name = 3

abbrev pub get_certificate_groups_name : ℕ
get_certificate_groups_name = 4

abbrev pub get_certificate_status_name : ℕ
get_certificate_status_name = 5

abbrev pub start_signing_request_name : ℕ
start_signing_request_name = 6

abbrev pub finish_request_name : ℕ
finish_request_name = 7

abbrev pub get_trust_list_name : ℕ
get_trust_list_name = 8

-- Two more names that are asked for; every other number is some other name.
abbrev pub directory_name : ℕ
directory_name = 9

abbrev pub certificate_types_name : ℕ
certificate_types_name = 10

abbrev pub elements_to_resolve : List ℕ
elements_to_resolve = 0 ∷ 1 ∷ 2 ∷ 3 ∷ 4 ∷ 5 ∷ 6 ∷ 7 ∷ 8 ∷ []

-- An argument of a method call, by its type.
pub data Argument : Type 0 where
  node_id : QString → Argument
  text : QString → Argument
  extension_object : (type_id : Text) (body : Option Bytes) → Argument
  byte_string : Bytes → Argument

-- The signals of QOpcUaGdsClient, and the calls of the client, its nodes, files and settings.
pub data Action : Type 0 where
  error_changed : (e : Error) → Action
  state_changed : (s : State) → Action
  create_client : Action
  connect_to_endpoint : Action
  disconnect_from_endpoint : Action
  create_node : (id : QString) → Action
  resolve_browse_path : (namespace_index name : ℕ) → Action
  call_method : (id : QString) (arguments : List Argument) → Action
  read_value : Action
  certificate_groups_received : (groups : List Text) → Action
  application_registered : Action
  authentication_required : Action
  certificate_update_required : Action
  certificate_updated : Action
  trust_list_updated : Action
  unregistered : Action
  store_application_id : (id : QString) → Action
  remove_application_id : Action
  write_key : Action
  write_certificate : (certificate : Option Bytes) → Action
  write_issuers : (issuers : Bytes) → Action

-- What `m_directoryNode` points to.
pub data DirectoryNode : Type 0 where
  null : DirectoryNode
  objects_folder : DirectoryNode
  directory : DirectoryNode

-- `slots` counts how often the timer's signal was connected to finishCertificateRequest.
pub record FinishTimer : Type 0 where
  pub interval : ℕ
  pub slots : ℕ
  pub is_active : Bool

pub record Gds : Type 0 where
  pub m_backend : Text
  pub m_endpoint_url : Text
  pub m_client : Bool
  pub m_state : State
  pub m_error : Error
  pub m_app_record : ApplicationRecord
  pub m_certificate_groups : List Text
  pub m_directory_nodes : Map QString
  pub m_directory_node : DirectoryNode
  pub m_gds_namespace_index : Option ℕ
  pub m_certificate_group_node : Option Text
  pub m_certificate_types_node_id : QString
  pub m_certificate_types_node : Bool
  pub m_trust_list_node : Bool
  pub m_certificate_finish_timer : Option FinishTimer
  pub m_certificate_request_id : QString
  pub m_check_timer_active : Bool
  pub m_trust_list_timer_active : Bool
  pub m_restart_required : Bool

-- The constructor, and the members that the application sets.
abbrev pub new_gds : Text → Text → ApplicationRecord → Gds
new_gds backend url app = record {
  m_backend = backend;
  m_endpoint_url = url;
  m_client = false;
  m_state = idle;
  m_error = no_error;
  m_app_record = app;
  m_certificate_groups = [];
  m_directory_nodes = [];
  m_directory_node = null;
  m_gds_namespace_index = none;
  m_certificate_group_node = none;
  m_certificate_types_node_id = none;
  m_certificate_types_node = false;
  m_trust_list_node = false;
  m_certificate_finish_timer = none;
  m_certificate_request_id = none;
  m_check_timer_active = false;
  m_trust_list_timer_active = false;
  m_restart_required = false;
}

-- `m_gdsNamespaceIndex`, -1 where it is none, as the 16 bits that a name or a node id keeps.
abbrev pub namespace_of : Option ℕ → ℕ
namespace_of none = 2 ^ 16 - 1
namespace_of (some index) = index % 2 ^ 16

-- What a run of code meets: the client and its nodes, the key and certificate files, the settings.
pub record Answers : Type 0 where
  pub creates_client : Bool
  pub is_connected : Bool
  pub is_anonymous : Bool
  pub namespaces : List Text
  pub has_node : QString → Bool
  pub accepts : Bool
  pub stored_id : QString
  pub key_exists : Bool
  pub key_exists_then : Bool
  pub key_opens : Bool
  pub key_resizes : Bool
  pub key_permissions_set : Bool
  pub key_loads : Bool
  pub key_is_private : Bool
  pub certificate_exists : Bool
  pub certificate_exists_then : Bool
  pub certificate_opens : Bool
  pub certificate_resizes : Bool
  pub certificate_is_written : Bool
  pub certificate_is_null : Bool
  pub certificate_is_self_signed : Bool
  pub certificate_is_due : Bool
  pub issuers_open : Bool
  pub issuers_are_written : Bool
  pub signing_request : Bytes

-- The state after some code, and what it has done.
pub record Ran : Type 0 where
  pub gds : Gds
  pub actions : List Action

-- none where a null pointer is used or an int overflows.
abbrev pub Op : Type 0
Op = Gds → Option Ran

unfoldable pub stop : Op
stop g = some (record { gds = g; actions = [] })

unfoldable pub act : Action → Op
act action g = some (record { gds = g; actions = action ∷ [] })

unfoldable pub put : (Gds → Gds) → Op
put f g = some (record { gds = f g; actions = [] })

abbrev pub with_actions : List Action → Option Ran → Option Ran
with_actions actions none = none
with_actions actions (some r) = some (record { gds = r.gds; actions = actions ++ r.actions })

abbrev pub continue : Option Ran → Op → Option Ran
continue none op = none
continue (some r) op = with_actions r.actions (op r.gds)

-- One after the other.
infixr 6 ◌⨾◌
unfoldable pub ◌⨾◌ : Op → Op → Op
◌⨾◌ first second g = continue (first g) second

unfoldable pub set_state : State → Op
set_state s g = some (record { gds = record g { m_state = s }; actions = state_changed s ∷ [] })

unfoldable pub set_error : Error → Op
set_error e g = some (record {
  gds = record g { m_error = e; m_state = error };
  actions = state_changed error ∷ error_changed e ∷ [];
})

-- `m_directoryNodes[name]`, which creates the entry.
abbrev pub or_null : Option QString → QString
or_null none = none
or_null (some id) = id

unfoldable pub touched : ℕ → Gds → Gds
touched name g = record g {
  m_directory_nodes = elim (find name g.m_directory_nodes) [
    | none ↦ insert name none g.m_directory_nodes
    | some id ↦ g.m_directory_nodes
  ];
}

unfoldable pub directory_node_id : ℕ → Gds → QString
directory_node_id name g = or_null (find name g.m_directory_nodes)

-- The directory node is used.
unfoldable pub if_there : DirectoryNode → Option Ran → Option Ran
if_there null r = none
if_there objects_folder r = r
if_there directory r = r

-- A method of the directory node is called, and an error set if that is not accepted.
unfoldable pub called_method : Answers → ℕ → List Argument → Error → Op
called_method answers name arguments e g =
    (put (touched name)
        ⨾ act (call_method (directory_node_id name g) arguments)
        ⨾ (if answers.accepts then stop else set_error e))
      g

unfoldable pub call_directory_method : Answers → ℕ → List Argument → Error → Op
unfolding set_error touched directory_node_id
call_directory_method answers name arguments e g =
    if_there g.m_directory_node (called_method answers name arguments e g)
