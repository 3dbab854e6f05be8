-- ===== src/Gds/Forgotten.antt =====
-- An application that the server does not know any more (opcua/client/qopcuagdsclient.cpp).
use qtopcua.Prelude.{◌≡◌, refl, sym, ap, ◌∙◌, true, false, not, ◌||◌, [], none, some, arith}
use qtopcua.Qt.Text.{split}
use qtopcua.Qt.Api.{Qt}
use qtopcua.NodeIds.{node_id_string_split}
use qtopcua.Encoding.Records.{ApplicationRecord}
use qtopcua.Encoding.State.{Codec, of_buffer}
use qtopcua.Encoding.Encoder.{
  Encoder, ◌>>◌, encode_string, encode_quint32, encode_array, return_true,
}
use qtopcua.Encoding.Structs.{encode_localized_text}
use qtopcua.Encoding.NodeId.{encode_node_id}
use qtopcua.Encoding.Objects.{encode_application_record}
use qtopcua.Gds.State.{Gds, Answers, Ran, set_error, failed_to_register_application, act, put, ◌⨾◌}
use qtopcua.Gds.Start.{restart_with_credentials}
use qtopcua.Gds.Registration.{
  MethodResult, bad_not_found, has_no_application_id, has_no_directory, is_offline,
  register_application, get_application_finished,
}
use qtopcua.Gds.Calls.{guarded}
use qtopcua.Gds.Registers.{chosen}

-- What is written first fails.
first-fails : (m k : Encoder) (c : Codec) → (m c).0 ≡ false → ((m >> k) c).0 ≡ false
first-fails m k c e = ground (arith, e)

module _ ⦃qt : Qt⦄ where
  encode_node_id-none : (c : Codec) → (encode_node_id none c).0 ≡ false
  unfolding encode_node_id node_id_string_split split
  encode_node_id-none c = ground arith

  -- A record without an application id is not written.
  encode_application_record-no_id :
      (app : ApplicationRecord) (c : Codec)
      → app.application_id ≡ none
      → (encode_application_record app c).0 ≡ false
  unfolding encode_application_record
  encode_application_record-no_id app c e =
      first-fails (encode_node_id app.application_id)
        (encode_string app.application_uri
          >> encode_quint32 app.application_type
          >> encode_array encode_localized_text app.application_names
          >> encode_string app.product_uri
          >> encode_array encode_string app.discovery_urls
          >> encode_array encode_string app.server_capability_identifiers
          >> return_true)
        c (ap (λ id. (encode_node_id id c).0) e ∙ encode_node_id-none c)

  -- No record is left out, and no id is kept.
  forgets :
      (answers : Answers) (result : MethodResult) (g : Gds)
      → (r : Ran) × (get_application_finished answers result bad_not_found g ≡ some r)
        × (r.gds.m_app_record.application_id ≡ none)
  unfolding get_application_finished restart_with_credentials act put ◌⨾◌
  forgets answers result g = (_, refl, refl)

-- After the server has answered BadNotFound for the application id, in any later state with the
-- application record that this leaves, in which the client is connected and has a directory node,
-- registerApplication sets the error FailedToRegisterApplication and sends nothing.
pub register_application-forgotten :
    ⦃qt : Qt⦄ (answers later : Answers) (result : MethodResult) (g h : Gds) (r : Ran)
    → get_application_finished answers result bad_not_found g ≡ some r
    → h.m_app_record ≡ r.gds.m_app_record
    → is_offline later h ≡ false
    → has_no_directory h ≡ false
    → register_application later h ≡ set_error failed_to_register_application h
unfolding register_application
register_application-forgotten answers later result g h r forgotten kept online there =
    let f = forgets answers result g in
    let same : some f.0 ≡ some r = sym f.1 ∙ forgotten in
    let ran : f.0 ≡ r = cc in
    let none_left : h.m_app_record.application_id ≡ none =
      ap (λ a. a.application_id) kept
      ∙ ap (λ q. q.gds.m_app_record.application_id) (sym ran)
      ∙ f.2 in
    let new : has_no_application_id h ≡ true = ground (arith, none_left) in
    let fails = encode_application_record-no_id h.m_app_record (of_buffer []) none_left in
    guarded (not (has_no_application_id h) || is_offline later h) (has_no_directory h) _ _ _
      (ground (arith, new, online)) there
    ∙ chosen (not (encode_application_record h.m_app_record (of_buffer [])).0) _ _
        (ground (arith, fails))
