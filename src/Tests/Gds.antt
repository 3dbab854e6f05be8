-- ===== src/Tests/Gds.antt =====
-- Runs of the client of a discovery server, with ASCII text and decimal numbers.
use qtopcua.Prelude.{
  ℕ, ◌+◌, ◌*◌, ◌^◌, ◌≡◌, ◌≤◌, ◌<◌, ◌⊎◌, refl, Bool, true, false, List, [], ◌∷◌, Option, none, some,
  find, insert, arith,
}
use qtopcua.Qt.Text.{QString}
use qtopcua.Qt.Plain.{plain}
use qtopcua.Encoding.Records.{ApplicationRecord}
use qtopcua.Client.Resolve.{index_from}
use qtopcua.Gds.State.{
  Gds, Answers, Ran, new_gds, directory_name, finish_request_name, call_method, node_id, stop, act,
  put, ◌⨾◌, set_state, set_error, touched, directory_node_id, if_there, called_method,
  call_directory_method,
}
use qtopcua.Gds.Start
use qtopcua.Gds.Start.{prepare_key, prepare_certificate, connect_client}
use qtopcua.Gds.Directory.{
  Resolved, resolve_directory_node, resolve_method_nodes, is_resolved, resolve_names,
  found_directory, named_directory, found_method, named_method,
}
use qtopcua.Gds.Directory
use qtopcua.Gds.Registration.{MethodResult, get_application, find_registered_application}
use qtopcua.Gds.Certificates.{
  bad_nothing_to_do, slots_of, start_signing_request_finished, finish_request_finished,
}
use qtopcua.Gds.Events.{Event, gds_uri, handle_event, times, finish_timeout_slots}
use qtopcua.Gds.Invariant.{IsWellFormed}
use qtopcua.Gds.Reachable.{Reachable, IsPossible, Reachable-IsWellFormed}
use qtopcua.Gds.Resolved.{method_names-full}
use qtopcua.Gds.Timer.{timer, LeavesTimer, retries-interval, copies, asks-per-request}

-- Everything is there and accepted; the certificate need not be renewed.
abbrev cooperative : Answers
cooperative = record {
  creates_client = true;
  is_connected = true;
  is_anonymous = false;
  namespaces = gds_uri ∷ [];
  has_node = λ id. true;
  accepts = true;
  stored_id = none;
  key_exists = true;
  key_exists_then = true;
  key_opens = true;
  key_resizes = true;
  key_permissions_set = true;
  key_loads = true;
  key_is_private = true;
  certificate_exists = true;
  certificate_exists_then = true;
  certificate_opens = true;
  certificate_resizes = true;
  certificate_is_written = true;
  certificate_is_null = false;
  certificate_is_self_signed = false;
  certificate_is_due = false;
  issuers_open = true;
  issuers_are_written = true;
  signing_request = [];
}

abbrev app : ApplicationRecord
app = record {
  application_id = none;
  application_uri = some (b'a' ∷ []);
  application_type = 1;
  application_names = [];
  product_uri = none;
  discovery_urls = [];
  server_capability_identifiers = [];
}

abbrev fresh : Gds
fresh = new_gds (b'o' ∷ []) (b'e' ∷ []) app

-- "i" for a name
abbrev resolved_to : ℕ → Resolved
resolved_to name = record {
  path = name ∷ [];
  status_code = 0;
  targets = (true, some (b'i' ∷ [])) ∷ [];
}

-- The events up to the answer for the last method.
abbrev finding : List Event
finding =
    Event.start
    ∷ Event.namespace_array_updated
    ∷ Event.directory_resolved (resolved_to directory_name)
    ∷ Event.method_node_resolved (resolved_to 0)
    ∷ Event.method_node_resolved (resolved_to 1)
    ∷ Event.method_node_resolved (resolved_to 2)
    ∷ Event.method_node_resolved (resolved_to 3)
    ∷ Event.method_node_resolved (resolved_to 4)
    ∷ Event.method_node_resolved (resolved_to 5)
    ∷ Event.method_node_resolved (resolved_to 6)
    ∷ Event.method_node_resolved (resolved_to 7)
    ∷ Event.method_node_resolved (resolved_to 8)
    ∷ []

abbrev or_before : Option Ran → Gds → Gds
or_before none g = g
or_before (some r) g = r.gds

abbrev is_done : Option Ran → Bool
is_done none = false
is_done (some r) = true

abbrev after_all : List Event → Gds → Gds
after_all [] g = g
after_all (event ∷ events) g = after_all events (or_before (handle_event cooperative event g) g)

-- Every event is possible, and its code runs through.
abbrev AllDone : List Event → Gds → Type 0
AllDone [] g = Unit
AllDone (event ∷ events) g =
    IsPossible event g
    × (is_done (handle_event cooperative event g) ≡ true)
    × AllDone events (or_before (handle_event cooperative event g) g)

reach-one :
    (event : Event) (g : Gds) (o : Option Ran)
    → Reachable g
    → IsPossible event g
    → handle_event cooperative event g ≡ o
    → is_done o ≡ true
    → Reachable (or_before o g)
reach-one event g none reached possible e done = cc
reach-one event g (some r) reached possible e done =
    Reachable.next cooperative event g r reached possible e

reach-all :
    (events : List Event) (g : Gds)
    → Reachable g
    → AllDone events g
    → Reachable (after_all events g)
reach-all [] g reached done = reached
reach-all (event ∷ events) g reached (possible, done, rest) =
    reach-all events _ (reach-one event g _ reached possible refl done) rest

abbrev ready : Gds
ready = after_all finding fresh

finding-AllDone : AllDone finding fresh
unfolding handle_event Start.start prepare_key prepare_certificate connect_client
    Directory.namespace_array_updated resolve_directory_node index_from Directory.directory_resolved
    resolve_names resolve_method_nodes Directory.method_node_resolved get_application
    find_registered_application call_directory_method called_method if_there touched
    directory_node_id set_state set_error stop act put ◌⨾◌ find insert
finding-AllDone = (
  tt,
  refl,
  (
    tt,
    refl,
    (
      (0, refl),
      refl,
      (
        tt,
        refl,
        (
          tt,
          refl,
          (tt, refl, (tt, refl, (tt, refl, (tt, refl, (tt, refl, (tt, refl, (tt, refl, tt))))))),
        ),
      ),
    ),
  ),
)

ready-Reachable : Reachable ready
ready-Reachable = reach-all finding fresh (Reachable.new _ _ app) finding-AllDone

Reachable-IsWellFormed_example : IsWellFormed ready
Reachable-IsWellFormed_example = Reachable-IsWellFormed ready ready-Reachable

-- The method for the result of a signing request.
method_names-full_example :
    (id : QString) × (find finish_request_name ready.m_directory_nodes ≡ some id)
unfolding handle_event Start.start prepare_key prepare_certificate connect_client
    Directory.namespace_array_updated resolve_directory_node index_from Directory.directory_resolved
    resolve_names resolve_method_nodes Directory.method_node_resolved get_application
    find_registered_application call_directory_method called_method if_there touched
    directory_node_id set_state set_error stop act put ◌⨾◌ find insert
method_names-full_example =
    method_names-full ready finish_request_name ready-Reachable refl (omega arith)

-- What a method returns: a request id.
abbrev request : MethodResult
request = record {
  type_id = none;
  body = none;
  string = some (b'r' ∷ []);
  strings = [];
  bool = false;
  list = [];
}

-- The interval is doubled three times.
retries-interval_example :
    let outcome =
      (start_signing_request_finished request 0
          ⨾ times 3 (finish_request_finished cooperative request bad_nothing_to_do))
        ready in
    ((3 ≤ 20)
      × LeavesTimer (timer (2000 * 2 ^ 3) (slots_of ready.m_certificate_finish_timer + 1)) outcome)
    ⊎ ((20 < 3) × (outcome ≡ none))
retries-interval_example = retries-interval cooperative request request 3 ready

-- Two signing requests.
asks-per-request_example :
    (q : Ran) × ((times 2 (start_signing_request_finished request 0)
          ⨾ finish_timeout_slots cooperative)
        ready
      ≡ some q)
    × (q.actions
        ≡ copies 2 (
            call_method
              (some (b'i' ∷ []))
              (node_id ready.m_app_record.application_id ∷ node_id request.string ∷ [])))
unfolding handle_event Start.start prepare_key prepare_certificate connect_client
    Directory.namespace_array_updated resolve_directory_node index_from Directory.directory_resolved
    resolve_names resolve_method_nodes Directory.method_node_resolved get_application
    find_registered_application call_directory_method called_method if_there touched
    directory_node_id set_state set_error stop act put ◌⨾◌ find insert
asks-per-request_example =
    asks-per-request cooperative request (some (b'i' ∷ [])) 1 ready refl refl refl refl refl refl
      refl
