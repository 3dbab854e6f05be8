-- ===== src/Gds/Events.antt =====
-- Everything that may happen to the client of a discovery server (opcua/client/qopcuagdsclient.cpp):
-- calls of an application, signals of the client and its nodes, and timers.
use qtopcua.Prelude.{
  ℕ, zero, suc, Bool, false, ◌||◌, List, [], ◌∷◌, Option, none, some, ◌==◌, if◌then◌else◌,
}
use qtopcua.Qt.Text.{Text, QString, units, text_eq}
use qtopcua.Qt.Api.{Qt}
use qtopcua.Gds.State.{
  Answers, Op, stop, act, put, ◌⨾◌, set_error, failed_to_unregister_application, node_id,
  FinishTimer, disconnect_from_endpoint, unregistered, touched, directory_node_id,
  call_directory_method, get_application_name, find_applications_name, register_application_name,
  unregister_application_name, get_certificate_groups_name, get_certificate_status_name,
  start_signing_request_name, finish_request_name, get_trust_list_name,
}
use qtopcua.Gds.Start
use qtopcua.Gds.Directory
use qtopcua.Gds.Certificates
use qtopcua.Gds.Registration.{
  MethodResult, has_no_application_id, has_no_directory, is_offline, get_application_finished,
  find_applications_finished, register_application_finished,
}
use qtopcua.Gds.Directory.{Resolved}
use qtopcua.Gds.Certificates.{
  get_certificate_groups_finished, get_certificate_status_finished, update_trust_list,
  finish_certificate_request, get_trust_list_finished, start_signing_request_finished,
  finish_request_finished, slots_of,
}

-- "http://opcfoundation.org/UA/GDS/"
abbrev pub gds_uri : Text
gds_uri =
    b'h' ∷ b't' ∷ b't' ∷ b'p' ∷ b':' ∷ b'/' ∷ b'/' ∷ b'o' ∷ b'p' ∷ b'c' ∷ b'f' ∷ b'o' ∷ b'u' ∷ b'n'
    ∷ b'd' ∷ b'a' ∷ b't' ∷ b'i' ∷ b'o' ∷ b'n' ∷ b'.' ∷ b'o' ∷ b'r' ∷ b'g' ∷ b'/' ∷ b'U' ∷ b'A'
    ∷ b'/' ∷ b'G' ∷ b'D' ∷ b'S' ∷ b'/' ∷ []

pub data Event : Type 0 where
  start : Event
  unregister : Event
  client_disconnected : Event
  client_error : (invalid_url : Bool) → Event
  namespace_array_updated : Event
  directory_resolved : (answer : Resolved) → Event
  method_node_resolved : (answer : Resolved) → Event
  method_call_finished : (id : QString) (result : MethodResult) (status : ℕ) → Event
  certificate_types_resolved : (answer : Resolved) → Event
  certificate_types_updated : (attr : ℕ) → Event
  trust_list_read : (attr : ℕ) → Event
  certificate_check_timeout : Event
  trust_list_timeout : Event
  finish_timeout : Event

unfoldable pub unregister_application : Answers → Op
unfolding set_error call_directory_method
unregister_application answers g =
    if has_no_application_id g
    then act unregistered g
    else if is_offline answers g || has_no_directory g
    then set_error failed_to_unregister_application g
    else call_directory_method answers unregister_application_name
        (node_id g.m_app_record.application_id ∷ []) failed_to_unregister_application g

unfoldable pub unregister_application_finished : ℕ → Op
unfolding set_error
unregister_application_finished status =
    if status == 0
    then act disconnect_from_endpoint ⨾ act unregistered
    else set_error failed_to_unregister_application

-- The chain of tests of a method node id; each test creates the entry that it looks at.
unfoldable pub dispatch : List (ℕ × Op) → QString → Op
unfolding touched directory_node_id
dispatch [] id g = stop g
dispatch ((name, handler) ∷ handlers) id g =
    let rest = dispatch handlers id (touched name g) in
    if text_eq (units id) (units (directory_node_id name g)) then handler (touched name g) else rest

module _ ⦃qt : Qt⦄ (answers : Answers) where
  abbrev pub handlers : MethodResult → ℕ → List (ℕ × Op)
  handlers result status =
      (unregister_application_name, unregister_application_finished status)
      ∷ (finish_request_name, finish_request_finished answers result status)
      ∷ (start_signing_request_name, start_signing_request_finished result status)
      ∷ (get_certificate_status_name, get_certificate_status_finished answers result status)
      ∷ (get_certificate_groups_name, get_certificate_groups_finished answers result status)
      ∷ (register_application_name, register_application_finished answers result status)
      ∷ (find_applications_name, find_applications_finished answers result status)
      ∷ (get_application_name, get_application_finished answers result status)
      ∷ (get_trust_list_name, get_trust_list_finished answers result status)
      ∷ []

  -- _q_handleDirectoryNodeMethodCallFinished
  unfoldable pub method_call_finished_slot : QString → MethodResult → ℕ → Op
  unfolding dispatch
  method_call_finished_slot id result status = dispatch (handlers result status) id

-- A slot that is connected several times is called as often.
unfoldable pub times : ℕ → Op → Op
times zero slot = stop
times (suc n) slot = slot ⨾ times n slot

abbrev pub stopped : Option FinishTimer → Option FinishTimer
stopped none = none
stopped (some timer) = some (record timer { is_active = false })

-- The timer for the result of a signing request fires once.
unfoldable pub finish_timeout_slots : Answers → Op
unfolding times finish_certificate_request
finish_timeout_slots answers g =
    (put (λ h. record h { m_certificate_finish_timer = stopped h.m_certificate_finish_timer })
        ⨾ times (slots_of g.m_certificate_finish_timer) (finish_certificate_request answers))
      g

unfoldable pub handle_event : ⦃qt : Qt⦄ → Answers → Event → Op
handle_event answers start = Start.start answers
handle_event answers unregister = unregister_application answers
handle_event answers client_disconnected = Start.client_disconnected answers
handle_event answers (client_error invalid_url) = Start.client_error invalid_url
handle_event answers namespace_array_updated = Directory.namespace_array_updated answers gds_uri
handle_event answers (directory_resolved answer) =
    Directory.directory_resolved answers gds_uri answer
handle_event answers (method_node_resolved answer) = Directory.method_node_resolved answers answer
handle_event answers (method_call_finished id result status) =
    method_call_finished_slot answers id result status
handle_event answers (certificate_types_resolved answer) =
    Certificates.certificate_types_resolved answers answer
handle_event answers (certificate_types_updated attr) =
    Certificates.certificate_types_updated answers attr
handle_event answers (trust_list_read attr) = Certificates.trust_list_read attr
handle_event answers certificate_check_timeout = Certificates.certificate_check_timeout answers
handle_event answers trust_list_timeout = update_trust_list answers
handle_event answers finish_timeout = finish_timeout_slots answers
