-- ===== src/Gds/Registration.antt =====
-- The registration of the application (opcua/client/qopcuagdsclient.cpp): getApplication,
-- findRegisteredApplication, registerApplication and what their results do, up to the request for
-- the certificate groups.
use qtopcua.Prelude.{
  ℕ, Bool, true, false, not, ◌&&◌, ◌||◌, List, [], ◌∷◌, Option, none, ◌==◌, if◌then◌else◌,
}
use qtopcua.Qt.Text.{Text, Bytes, QString, size, units, text_eq}
use qtopcua.Qt.Api.{Qt}
use qtopcua.NodeIds.{node_id_from_integer}
use qtopcua.Encoding.State.{of_buffer}
use qtopcua.Encoding.Decoder.{done, failed, overrun}
use qtopcua.Encoding.Records.{ApplicationRecord}
use qtopcua.Encoding.Objects.{encode_application_record, decode_application_record}
use qtopcua.Gds.State.{
  namespace_of, Gds, Answers, Op, stop, act, put, ◌⨾◌, set_error, node_id, text, extension_object,
  failed_to_register_application, failed_to_get_certificate_status, null, objects_folder, directory,
  store_application_id, remove_application_id, call_directory_method, get_application_name,
  find_applications_name, register_application_name, get_certificate_groups_name,
}
use qtopcua.Gds.Start.{restart_with_credentials}

-- What the QVariant of a method's result converts to.
pub record MethodResult : Type 0 where
  pub type_id : QString
  pub body : Option Bytes
  pub string : QString
  pub strings : List Text
  pub bool : Bool
  pub list : List Bytes

abbrev pub bad_not_found : ℕ
bad_not_found = 0x803E0000

abbrev pub bad_user_access_denied : ℕ
bad_user_access_denied = 0x801F0000

-- The null node id "ns=0;i=0", and no id.
abbrev pub null_id : Text
null_id = b'n' ∷ b's' ∷ b'=' ∷ b'0' ∷ b';' ∷ b'i' ∷ b'=' ∷ b'0' ∷ []

abbrev pub has_no_application_id : Gds → Bool
has_no_application_id g =
    size g.m_app_record.application_id == 0 || text_eq (units g.m_app_record.application_id) null_id

abbrev pub with_application_id : QString → Gds → Gds
with_application_id id g = record g { m_app_record = record g.m_app_record { application_id = id } }

abbrev pub has_no_directory : Gds → Bool
has_no_directory g = elim g.m_directory_node [
  | null ↦ true
  | objects_folder ↦ false
  | directory ↦ false
]

module _ (answers : Answers) where
  abbrev pub is_offline : Gds → Bool
  is_offline g = not g.m_client || not answers.is_connected

  unfoldable pub get_application : Op
  unfolding set_error call_directory_method
  get_application g =
      if is_offline g
      then stop g
      else if has_no_directory g
      then set_error failed_to_register_application g
      else call_directory_method answers get_application_name
          (node_id g.m_app_record.application_id ∷ []) failed_to_register_application g

  unfoldable pub find_registered_application : Op
  unfolding set_error call_directory_method
  find_registered_application g =
      if is_offline g
      then stop g
      else if has_no_directory g
      then set_error failed_to_register_application g
      else call_directory_method answers find_applications_name
          (text g.m_app_record.application_uri ∷ []) failed_to_register_application g

  unfoldable pub get_certificate_groups : Op
  unfolding set_error call_directory_method
  get_certificate_groups g =
      if is_offline g
      then stop g
      else if has_no_directory g
      then set_error failed_to_get_certificate_status g
      else call_directory_method answers get_certificate_groups_name
          (node_id g.m_app_record.application_id ∷ []) failed_to_get_certificate_status g

module _ ⦃qt : Qt⦄ (answers : Answers) where
  -- The type id of an encoded application record.
  abbrev pub record_type_id : Gds → Text
  record_type_id g = node_id_from_integer (namespace_of g.m_gds_namespace_index) 134

  -- `next` gets the record; overrun bytes are undefined.
  abbrev pub with_record : MethodResult → (ApplicationRecord → Op) → Op
  with_record result next g =
      if not (text_eq (units result.type_id) (record_type_id g))
      then set_error failed_to_register_application g
      else (elim (decode_application_record (of_buffer (units result.body))) [
        | done r c ↦ next r g
        | failed c ↦ set_error failed_to_register_application g
        | overrun ↦ none
      ])

  unfoldable pub get_application_finished : MethodResult → ℕ → Op
  unfolding set_error restart_with_credentials get_certificate_groups
  get_application_finished result status g =
      if status == bad_not_found
      then (put (with_application_id none) ⨾ act remove_application_id ⨾ restart_with_credentials) g
      else if not (status == 0)
      then set_error failed_to_register_application g
      else if size result.type_id == 0
      then get_certificate_groups answers g
      else with_record result
          (λ r.
            put (λ h. record h {
              m_app_record = record r { application_id = h.m_app_record.application_id };
            })
            ⨾ get_certificate_groups answers)
          g

  unfoldable pub register_application : Op
  unfolding set_error call_directory_method
  register_application g =
      if not (has_no_application_id g) || is_offline answers g
      then stop g
      else if has_no_directory g
      then set_error failed_to_register_application g
      else let encoded = encode_application_record g.m_app_record (of_buffer []) in
        if not encoded.0
        then set_error failed_to_register_application g
        else call_directory_method answers register_application_name
            (extension_object (record_type_id g) encoded.1.m_data ∷ [])
            failed_to_register_application g

  unfoldable pub find_applications_finished : MethodResult → ℕ → Op
  unfolding set_error register_application get_certificate_groups
  find_applications_finished result status g =
      if not (status == 0)
      then set_error failed_to_register_application g
      else if size result.type_id == 0
      then register_application g
      else with_record result
          (λ r. put (λ h. record h { m_app_record = r }) ⨾ get_certificate_groups answers) g

unfoldable pub register_application_finished : Answers → MethodResult → ℕ → Op
unfolding set_error restart_with_credentials get_certificate_groups
register_application_finished answers result status =
    if status == 0
    then put (with_application_id result.string)
      ⨾ act (store_application_id result.string)
      ⨾ get_certificate_groups answers
    else if status == bad_user_access_denied && answers.is_anonymous
    then restart_with_credentials
    else set_error failed_to_register_application
