-- ===== src/Tests/Client.antt =====
-- Runs of the client, with ASCII text and decimal numbers.
use qtopcua.Prelude.{◌≡◌, refl, true, false, List, [], ◌∷◌, ◌++◌, some, length, arith}
use qtopcua.Qt.Text.{Text}
use qtopcua.Qt.Plain.{plain}
use qtopcua.NodeIds.{node_id_text}
use qtopcua.Nodes.Requests.{disconnected, connected}
use qtopcua.Client.State.{Client, new_client}
use qtopcua.Client.Events.{
  Event, state_and_or_error_changed, connect, disconnect, set_namespace_autoupdate, attribute_read,
  enable_monitoring_finished, handle_event, run,
}
use qtopcua.Client.Follow.{follow, follow-run}
use qtopcua.Client.Guards.{IsGuarded, handle_event-IsGuarded}
use qtopcua.Client.Faults.{asks_for_monitoring, run-reconnected}
use qtopcua.Client.Resolve.{resolve_expanded_node_id, resolve_expanded_node_id-node_id_text}

-- Two namespace URIs, "u" and "v".
abbrev uri_u : Text
uri_u = b'u' ∷ []

abbrev uri_v : Text
uri_v = b'v' ∷ []

-- A connection, the namespace array with its monitoring, and the end of the connection.
abbrev session : List Event
session =
    connect (record { number = 4; is_secure = false })
    ∷ state_and_or_error_changed connected 0 true
    ∷ attribute_read 4096 (some (uri_u ∷ uri_v ∷ []))
    ∷ set_namespace_autoupdate true
    ∷ enable_monitoring_finished 0 500
    ∷ disconnect
    ∷ state_and_or_error_changed disconnected 0 true
    ∷ []

-- The client that is connected and monitors the namespace array.
abbrev monitoring : Client
monitoring = record new_client {
  m_state = connected;
  m_namespace_array_node = true;
  m_enable_namespace_array_autoupdate = true;
  m_namespace_array_autoupdate_enabled = true;
  connections = 1;
}

follow-run_example :
    follow (run session new_client).actions disconnected ≡ (run session new_client).client.m_state
follow-run_example = follow-run session

handle_event-IsGuarded_example : IsGuarded monitoring.m_state (handle_event disconnect monitoring)
handle_event-IsGuarded_example = handle_event-IsGuarded disconnect monitoring

run-reconnected_example :
    let o =
      run
        (state_and_or_error_changed disconnected 3 true
          ∷ state_and_or_error_changed connected 0 true
          ∷ [])
        monitoring in
    (o.client.m_state ≡ connected)
    × (o.client.m_namespace_array_autoupdate_enabled ≡ true)
    × (asks_for_monitoring o.actions ≡ false)
run-reconnected_example = run-reconnected monitoring 3 0 true refl refl refl

-- "ns=9;s=v" in the namespace "v", which has the index 1.
resolve_expanded_node_id-node_id_text_example :
    resolve_expanded_node_id ((uri_u ∷ []) ++ (uri_v ∷ [])) (record {
      server_index = 0;
      namespace_uri = some uri_v;
      node_id = some (node_id_text 9 b's' uri_v);
    })
    ≡ some (some (node_id_text (length (uri_u ∷ [])) b's' uri_v))
resolve_expanded_node_id-node_id_text_example =
    resolve_expanded_node_id-node_id_text (uri_u ∷ []) [] uri_v 9 b's' uri_v (λ e. cc) (refl, tt)
      (omega arith, (omega arith, (omega arith, tt)))
