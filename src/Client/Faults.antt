-- ===== src/Client/Faults.antt =====
-- A connection that is refused, and the monitoring of the namespace array after a lost connection.
use qtopcua.Prelude.{ℕ, ◌≡◌, Bool, true, false, ◌&&◌, List, [], ◌∷◌, ◌==◌, if◌then◌else◌, arith}
use qtopcua.Nodes.Requests.{disconnected, connected}
use qtopcua.Client.State.{
  Endpoint, Action, error_changed, Client, next, set_state_and_error, access_denied, error_signals,
  state_signals, client_connect_to_endpoint, update_namespace_array,
  setup_namespace_array_monitoring,
}
use qtopcua.Client.Events.{state_and_or_error_changed, state_changed_slot, handle_event, run}

-- A secure endpoint without keys: the client only gets an error, which it signals if it is new.
pub connect-refused :
    (endpoint : Endpoint) (c : Client)
    → endpoint.is_secure ≡ true
    → (c.m_pki_config.is_pki_valid && c.m_pki_config.is_key_and_certificate_file_set) ≡ false
    → let o = client_connect_to_endpoint endpoint c in
      (o.actions ≡ (if c.m_error == access_denied then [] else error_changed access_denied ∷ []))
      × (o.client.m_error ≡ access_denied)
      × (o.client.m_state ≡ c.m_state)
      × (o.client.m_endpoint ≡ c.m_endpoint)
unfolding client_connect_to_endpoint set_state_and_error error_signals state_signals
connect-refused endpoint c secure bad = ground arith

abbrev pub asks_for_monitoring : List Action → Bool
asks_for_monitoring [] = false
asks_for_monitoring (Action.enable_monitoring n ∷ actions) = true
asks_for_monitoring (action ∷ actions) = asks_for_monitoring actions

-- A client that monitors the namespace array, because its autoupdate is enabled, and that is
-- disconnected and connected again, is Connected and takes the array as monitored, without having
-- asked the node for monitoring.
pub run-reconnected :
    (c : Client) (lost regained : ℕ) (node : Bool)
    → c.m_namespace_array_node ≡ true
    → c.m_enable_namespace_array_autoupdate ≡ true
    → c.m_namespace_array_autoupdate_enabled ≡ true
    → let o =
        run
          (state_and_or_error_changed disconnected lost node
            ∷ state_and_or_error_changed connected regained node
            ∷ [])
          c in
      (o.client.m_state ≡ connected)
      × (o.client.m_namespace_array_autoupdate_enabled ≡ true)
      × (asks_for_monitoring o.actions ≡ false)
unfolding run handle_event state_changed_slot next set_state_and_error error_signals state_signals
    update_namespace_array setup_namespace_array_monitoring
run-reconnected c lost regained node has wanted monitored = ground arith
