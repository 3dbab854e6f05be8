-- ===== src/Gds/Certificates.antt =====
-- The certificate and the trust list (opcua/client/qopcuagdsclient.cpp): from
-- handleGetCertificateGroupsFinished to registrationDone, the certificate check, the signing
-- request and its result, and the trust list.
use qtopcua.Prelude.{
  int_max, ℕ, ◌+◌, ◌*◌, ltb, true, false, not, ◌||◌, List, [], ◌∷◌, Option, none, some, ◌==◌,
  if◌then◌else◌, length,
}
use qtopcua.Qt.Text.{Bytes, size}
use qtopcua.Nodes.Node.{value_attribute}
use qtopcua.Gds.State.{
  Answers, Op, stop, act, put, ◌⨾◌, set_state, set_error, State, connection_error,
  failed_to_get_certificate_status, failed_to_get_certificate, Action, node_id, byte_string,
  FinishTimer, create_node, resolve_browse_path, read_value, certificate_groups_received,
  certificate_update_required, certificate_updated, trust_list_updated, write_certificate,
  write_issuers, certificate_types_name, call_directory_method, get_certificate_status_name,
  start_signing_request_name, finish_request_name, get_trust_list_name,
}
use qtopcua.Gds.Registration.{MethodResult, null_id, has_no_directory, is_offline}
use qtopcua.Gds.Directory.{Resolved, sole_name, sole_target}

abbrev pub bad_nothing_to_do : ℕ
bad_nothing_to_do = 0x800F0000

module _ (answers : Answers) where
  unfoldable pub get_certificate_types : Op
  unfolding set_error
  get_certificate_types g =
      if is_offline answers g || size g.m_certificate_types_node_id == 0
      then set_error failed_to_get_certificate_status g
      else if not (answers.has_node g.m_certificate_types_node_id)
      then (put (λ h. record h { m_certificate_types_node = false })
            ⨾ act (create_node g.m_certificate_types_node_id)
            ⨾ set_error failed_to_get_certificate_status)
          g
      else (put (λ h. record h { m_certificate_types_node = true })
            ⨾ act (create_node g.m_certificate_types_node_id)
            ⨾ act read_value
            ⨾ (if answers.accepts then stop else set_error failed_to_get_certificate_status))
          g

  -- What follows the test of the name.
  abbrev pub named_types : Option ℕ → Resolved → Op
  named_types none answer = set_error failed_to_get_certificate_status
  named_types (some name) answer =
      if name == certificate_types_name
      then (elim (sole_target answer) [
        | none ↦ set_error failed_to_get_certificate_status
        | some id ↦ put (λ g. record g { m_certificate_types_node_id = id }) ⨾ get_certificate_types
      ])
      else set_error failed_to_get_certificate_status

  -- The slot of the node of the certificate group.
  unfoldable pub certificate_types_resolved : Resolved → Op
  unfolding set_error get_certificate_types
  certificate_types_resolved answer = named_types (sole_name answer) answer

  unfoldable pub resolve_certificate_types : Op
  unfolding set_error
  resolve_certificate_types g =
      if is_offline answers g
      then set_error failed_to_get_certificate_status g
      else (elim g.m_certificate_groups [
        | [] ↦ set_error failed_to_get_certificate_status g
        | group ∷ groups ↦
            if not (answers.has_node (some group))
            then (put (λ h. record h { m_certificate_group_node = none })
                  ⨾ act (create_node (some group))
                  ⨾ set_error failed_to_get_certificate_status)
                g
            else (put (λ h. record h { m_certificate_group_node = some group })
                  ⨾ act (create_node (some group))
                  ⨾ act (resolve_browse_path 0 certificate_types_name)
                  ⨾ (if answers.accepts then stop else set_error failed_to_get_certificate_status))
                g
      ])

  unfoldable pub get_certificate_groups_finished : MethodResult → ℕ → Op
  unfolding set_error resolve_certificate_types
  get_certificate_groups_finished result status =
      if not (status == 0)
      then set_error failed_to_get_certificate_status
      else put (λ g. record g { m_certificate_groups = result.strings })
        ⨾ act (certificate_groups_received result.strings)
        ⨾ resolve_certificate_types

  unfoldable pub get_certificate_status : Op
  unfolding set_error call_directory_method
  get_certificate_status g =
      if is_offline answers g
      then stop g
      else if has_no_directory g
      then set_error failed_to_get_certificate_status g
      else (elim g.m_certificate_groups [
        | [] ↦ set_error failed_to_get_certificate_status g
        | group ∷ groups ↦
            call_directory_method answers get_certificate_status_name
              (node_id g.m_app_record.application_id
                ∷ node_id (some group)
                ∷ node_id (some null_id)
                ∷ [])
              failed_to_get_certificate_status g
      ])

  unfoldable pub start_certificate_request : Op
  unfolding set_error call_directory_method
  start_certificate_request g =
      if is_offline answers g
      then stop g
      else if has_no_directory g
      then set_error failed_to_get_certificate_status g
      else if not answers.key_opens
      then set_error connection_error g
      else if not answers.key_loads
      then set_error connection_error g
      else if not answers.key_is_private
      then set_error connection_error g
      else call_directory_method answers start_signing_request_name
          (node_id g.m_app_record.application_id
            ∷ node_id (some null_id)
            ∷ node_id (some null_id)
            ∷ byte_string answers.signing_request
            ∷ [])
          failed_to_get_certificate g

  unfoldable pub get_certificate_status_finished : MethodResult → ℕ → Op
  unfolding set_error start_certificate_request
  get_certificate_status_finished result status =
      if not (status == 0)
      then set_error failed_to_get_certificate_status
      else if result.bool
      then act certificate_update_required ⨾ start_certificate_request
      else stop

  -- _q_certificateCheckTimeout
  unfoldable pub certificate_check_timeout : Op
  unfolding start_certificate_request get_certificate_status
  certificate_check_timeout =
      if answers.certificate_is_null
      then stop
      else if answers.certificate_is_self_signed || answers.certificate_is_due
      then act certificate_update_required ⨾ start_certificate_request
      else get_certificate_status

  -- _q_updateTrustList; the directory node is used without a test.
  unfoldable pub update_trust_list : Op
  unfolding call_directory_method
  update_trust_list g = if is_offline answers g then stop g else (elim g.m_certificate_group_node [
    | none ↦ stop g
    | some group ↦
        call_directory_method answers get_trust_list_name
          (node_id g.m_app_record.application_id ∷ node_id (some group) ∷ [])
          failed_to_get_certificate g
  ])

  unfoldable pub registration_done : Op
  unfolding set_state certificate_check_timeout update_trust_list
  registration_done =
      set_state State.application_registered
      ⨾ act Action.application_registered
      ⨾ put (λ g. record g { m_check_timer_active = true })
      ⨾ certificate_check_timeout
      ⨾ put (λ g. record g { m_trust_list_timer_active = true })
      ⨾ update_trust_list

  -- The slot of the node of the certificate types: the test of the attribute only guards a message.
  unfoldable pub certificate_types_updated : ℕ → Op
  unfolding registration_done
  certificate_types_updated attr = registration_done

  -- finishCertificateRequest; the directory node is used without a test.
  unfoldable pub finish_certificate_request : Op
  unfolding set_error call_directory_method
  finish_certificate_request g =
      if is_offline answers g
      then stop g
      else if size g.m_certificate_request_id == 0
      then set_error failed_to_get_certificate_status g
      else call_directory_method answers finish_request_name
          (node_id g.m_app_record.application_id ∷ node_id g.m_certificate_request_id ∷ [])
          failed_to_get_certificate g

  unfoldable pub get_trust_list_finished : MethodResult → ℕ → Op
  unfolding set_error
  get_trust_list_finished result status =
      if not (status == 0) || size result.string == 0
      then set_error failed_to_get_certificate
      else if not (answers.has_node result.string)
      then put (λ g. record g { m_trust_list_node = false })
        ⨾ act (create_node result.string)
        ⨾ set_error failed_to_get_certificate_status
      else put (λ g. record g { m_trust_list_node = true })
        ⨾ act (create_node result.string)
        ⨾ act read_value
        ⨾ (if answers.accepts then stop else set_error failed_to_get_certificate_status)

-- The slot of the node of the trust list.
unfoldable pub trust_list_read : ℕ → Op
trust_list_read attr = if attr == value_attribute then act trust_list_updated else stop

abbrev pub slots_of : Option FinishTimer → ℕ
slots_of none = 0
slots_of (some timer) = timer.slots

-- The slot is connected with each request; the interval starts from two seconds.
unfoldable pub start_signing_request_finished : MethodResult → ℕ → Op
unfolding set_error
start_signing_request_finished result status =
    if not (status == 0)
    then set_error failed_to_get_certificate
    else put (λ g. record g {
      m_certificate_request_id = result.string;
      m_certificate_finish_timer = some (record {
        interval = 2000;
        slots = slots_of g.m_certificate_finish_timer + 1;
        is_active = true;
      });
    })

-- The certificate and the issuers of the three results.
abbrev pub issued : List Bytes → Option (Bytes × Bytes)
issued (certificate ∷ key ∷ issuers ∷ []) =
    if length certificate == 0 || length issuers == 0 then none else some (certificate, issuers)
issued results = none

-- The request is not finished: the timer starts again with the doubled interval, an int. none if
-- there is no timer, or where the product of the ints overflows.
abbrev pub retry : Option FinishTimer → Op
retry none g = none
retry (some timer) g =
    if ltb int_max (timer.interval * 2)
    then none
    else put
        (λ h. record h {
          m_certificate_finish_timer =
              some (record timer { interval = timer.interval * 2; is_active = true });
        })
        g

-- The files that are written.
abbrev pub store_files : Answers → Option (Bytes × Bytes) → Op
store_files answers none = set_error failed_to_get_certificate
store_files answers (some files) =
    if not answers.certificate_opens
    then set_error failed_to_get_certificate
    else act (write_certificate (some files.0))
      ⨾ (if not answers.certificate_is_written || not answers.issuers_open
          then set_error failed_to_get_certificate
          else act (write_issuers files.1)
            ⨾ (if not answers.issuers_are_written
                then set_error failed_to_get_certificate
                else act certificate_updated))

unfoldable pub finish_request_finished : Answers → MethodResult → ℕ → Op
unfolding set_error
finish_request_finished answers result status g =
    if status == bad_nothing_to_do
    then retry g.m_certificate_finish_timer g
    else if not (status == 0)
    then set_error failed_to_get_certificate g
    else (put (λ h. record h { m_certificate_request_id = none })
          ⨾ store_files answers (issued result.list))
        g
