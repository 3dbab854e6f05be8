-- ===== src/Tests/Registered.antt =====
-- Registrations of an application at a discovery server, with ASCII text and decimal numbers.
use qtopcua.Prelude.{ℕ, ◌≡◌, refl, ap, true, false, [], ◌∷◌, none, some, arith}
use qtopcua.Qt.Text.{QString}
use qtopcua.Qt.Plain.{plain}
use qtopcua.Qt.Decimal.{decimal}
use qtopcua.NodeIds.{node_id_from_integer}
use qtopcua.Encoding.Records.{ApplicationRecord}
use qtopcua.Encoding.State.{of_buffer}
use qtopcua.Encoding.NodeId.Valid.{IsNodeId}
use qtopcua.Encoding.Objects.{encode_application_record}
use qtopcua.Encoding.Objects.RoundTrip.{RoundTrip-application_record}
use qtopcua.Client.Resolve.{index_from}
use qtopcua.Gds.State.{
  State, Gds, Answers, Ran, new_gds, no_error, DirectoryNode, failed_to_register_application, act,
  put, ◌⨾◌, set_error,
}
use qtopcua.Gds.Start.{restart_with_credentials}
use qtopcua.Gds.Registration.{MethodResult, null_id, get_application_finished, register_application}
use qtopcua.Gds.Events.{gds_uri}
use qtopcua.Gds.Dispatched.{AreDistinct}
use qtopcua.Gds.Opening.{Opens}
use qtopcua.Gds.Registers.{run_events, registration}
use qtopcua.Gds.Registered.{opening, opening-registers}
use qtopcua.Gds.Forgotten.{register_application-forgotten}

-- Everything is there and accepted; the certificate need not be renewed.
abbrev cooperative : Answers
cooperative = record {
  creates_client = true;
  is_connected = true;
  is_anonymous = false;
  namespaces = gds_uri ∷ [];
  has_node = λ id. true;
  accepts = true;
  stored_id = none;
  key_exists = true;
  key_exists_then = true;
  key_opens = true;
  key_resizes = true;
  key_permissions_set = true;
  key_loads = true;
  key_is_private = true;
  certificate_exists = true;
  certificate_exists_then = true;
  certificate_opens = true;
  certificate_resizes = true;
  certificate_is_written = true;
  certificate_is_null = false;
  certificate_is_self_signed = false;
  certificate_is_due = false;
  issuers_open = true;
  issuers_are_written = true;
  signing_request = [];
}

cooperative-Opens : Opens 0 cooperative
unfolding index_from
cooperative-Opens = record {
  serves = record {
    online = refl;
    accepted = refl;
    nodes = λ id. refl;
    key_opens = refl;
    key_loads = refl;
    key_is_private = refl;
  };
  creates = refl;
  has_key = refl;
  has_certificate = refl;
  has_no_id = refl;
  has_namespace = refl;
}

-- A record with the null node id.
abbrev app : ApplicationRecord
app = record {
  application_id = some null_id;
  application_uri = some (b'a' ∷ []);
  application_type = 1;
  application_names = [];
  product_uri = none;
  discovery_urls = [];
  server_capability_identifiers = [];
}

null_id-IsNodeId : IsNodeId null_id
unfolding decimal node_id_from_integer
null_id-IsNodeId = IsNodeId.numeric 0 0 (omega arith) (omega arith) refl

app_encodes : (encode_application_record app (of_buffer [])).0 ≡ true
app_encodes =
    ap (λ r. r.0)
      ((RoundTrip-application_record app null_id null_id-IsNodeId (record {
        id_form = refl;
        uri = (refl, omega arith, omega arith);
        type_number = omega arith;
        few_names = omega arith;
        names = tt;
        product = tt;
        few_urls = omega arith;
        urls = tt;
        few_capabilities = omega arith;
        capabilities = tt;
      })).writes
        [] 0)

-- A text of one code unit for each method.
abbrev ids : ℕ → QString
ids name = some (name ∷ [])

ids-AreDistinct : AreDistinct ids
ids-AreDistinct m n l k e = ground (arith, e)

abbrev text_result : QString → MethodResult
text_result s = record {
  type_id = none;
  body = none;
  string = s;
  strings = [];
  bool = false;
  list = [];
}

abbrev groups_result : MethodResult
groups_result = record (text_result none) { strings = (b'g' ∷ []) ∷ [] }

opening-registers_example :
    let events = opening ids (some (b'd' ∷ [])) (
      registration ids
        (text_result none)
        (text_result (some (b'x' ∷ [])))
        groups_result
        (some (b't' ∷ []))
        4096) in
    (r : Ran) × (run_events cooperative events (new_gds (b'o' ∷ []) (b'e' ∷ []) app) ≡ some r)
    × (r.gds.m_state ≡ State.application_registered)
    × (r.gds.m_error ≡ no_error)
    × (r.gds.m_app_record.application_id ≡ some (b'x' ∷ []))
    × (r.gds.m_certificate_groups ≡ (b'g' ∷ []) ∷ [])
opening-registers_example =
    opening-registers 0 cooperative ids (some (b'd' ∷ [])) (some (b't' ∷ [])) (b'o' ∷ [])
      (b'e' ∷ []) app (text_result none) (text_result (some (b'x' ∷ []))) groups_result (b'g' ∷ [])
      [] 4096 cooperative-Opens ids-AreDistinct refl refl refl app_encodes refl refl refl

-- A client that has found the directory again.
abbrev again : Gds
again = record (new_gds (b'o' ∷ []) (b'e' ∷ []) (record app { application_id = none })) {
  m_client = true;
  m_state = State.connected;
  m_directory_node = DirectoryNode.directory;
}

register_application-forgotten_example :
    register_application cooperative again ≡ set_error failed_to_register_application again
unfolding get_application_finished restart_with_credentials act put ◌⨾◌
register_application-forgotten_example =
    register_application-forgotten cooperative cooperative (text_result none)
      (new_gds (b'o' ∷ []) (b'e' ∷ []) app) again _ refl refl refl refl
