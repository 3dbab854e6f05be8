-- ===== src/Gds/Start.antt =====
-- QOpcUaGdsClientPrivate::start, restartWithCredentials, and the slots for a lost connection and
-- for an error of the client (opcua/client/qopcuagdsclient.cpp).
use qtopcua.Prelude.{Bool, true, false, not, [], none, some, ◌==◌, if◌then◌else◌, length}
use qtopcua.Qt.Text.{size}
use qtopcua.Gds.State.{
  Answers, Op, stop, act, put, ◌⨾◌, set_state, set_error, idle, backend_instantiated, connecting,
  invalid_backend, invalid_endpoint, connection_error, null, create_client, connect_to_endpoint,
  disconnect_from_endpoint, authentication_required, write_key, write_certificate,
}

module _ (answers : Answers) where
  -- The private key file is read, or written with a new key. `next` is what follows.
  unfoldable pub prepare_key : Op → Op
  unfolding set_error
  prepare_key next =
      if answers.key_exists
      then (if not answers.key_opens
          then set_error connection_error
          else if not answers.key_loads
          then set_error connection_error
          else if not answers.key_is_private
          then set_error connection_error
          else next)
      else ((if answers.key_exists_then then set_error connection_error else stop)
          ⨾ (if not answers.key_opens
              then set_error connection_error
              else if not answers.key_resizes
              then set_error connection_error
              else if not answers.key_permissions_set
              then set_error connection_error
              else act write_key ⨾ next))

  -- A certificate file that does not exist is written.
  unfoldable pub prepare_certificate : Op → Op
  unfolding set_error
  prepare_certificate next =
      if answers.certificate_exists
      then next
      else ((if answers.certificate_exists_then then set_error connection_error else stop)
          ⨾ (if not answers.certificate_opens
              then set_error connection_error
              else if not answers.certificate_resizes
              then set_error connection_error
              else act (write_certificate none) ⨾ next))

  abbrev pub load_application_id : Op
  load_application_id = put (λ g.
      if size answers.stored_id == 0
      then g
      else record g { m_app_record = record g.m_app_record { application_id = answers.stored_id } })

  -- What follows once there is a client.
  unfoldable pub connect_client : Op
  unfolding prepare_key prepare_certificate set_state set_error
  connect_client = set_state connecting ⨾ λ g.
      (if size (some g.m_endpoint_url) == 0
          then set_error invalid_endpoint
          else prepare_key (prepare_certificate (load_application_id ⨾ act connect_to_endpoint)))
        g

  unfoldable pub start : Op
  unfolding connect_client set_state set_error
  start g =
      if length g.m_backend == 0
      then set_error invalid_backend g
      else if g.m_client
      then connect_client g
      else if answers.creates_client
      then (set_state backend_instantiated
            ⨾ act create_client
            ⨾ put (λ h. record h { m_client = true })
            ⨾ connect_client)
          g
      else (set_state backend_instantiated ⨾ act create_client ⨾ set_error invalid_backend) g

  -- The slot for QOpcUaClient::disconnected.
  unfoldable pub client_disconnected : Op
  unfolding start set_state
  client_disconnected =
      put (λ g. record g { m_directory_node = null; m_directory_nodes = [] })
      ⨾ set_state idle
      ⨾ λ g.
          (if g.m_restart_required
              then put (λ h. record h { m_restart_required = false }) ⨾ start
              else stop)
            g

-- The slot for QOpcUaClient::errorChanged.
unfoldable pub client_error : Bool → Op
unfolding set_error
client_error invalid_url =
    if invalid_url then set_error invalid_endpoint else set_error connection_error

-- The application is asked for credentials while the signal is emitted.
unfoldable pub restart_with_credentials : Op
restart_with_credentials =
    act authentication_required
    ⨾ put (λ g. record g { m_restart_required = true })
    ⨾ act disconnect_from_endpoint
