-- ===== src/Client/Guards.antt =====
-- When a client asks its implementation or the node of the namespace array for something.
use qtopcua.Prelude.{
  ℕ, zero, suc, ◌≡◌, sym, subst, ◌∙◌, Bool, List, Option, none, some, All, All-append, arith,
}
use qtopcua.Qt.Text.{Text}
use qtopcua.Nodes.Requests.{ClientState, disconnected, connecting, connected, closing}
use qtopcua.Client.State.{
  Endpoint, Action, Client, Outcome, next, set_state_and_error, error_signals, state_signals,
  client_connect_to_endpoint, access_denied, client_disconnect_from_endpoint,
  update_namespace_array, namespace_array_read, setup_namespace_array_monitoring,
}
use qtopcua.Client.Events.{
  Event, state_and_or_error_changed, connect, disconnect, set_pki_configuration, update,
  set_namespace_autoupdate, set_namespace_autoupdate_interval, attribute_read, attribute_updated,
  enable_monitoring_finished, state_changed_slot, monitoring_enabled_slot, each_connection,
  set_namespace_autoupdate_call, set_namespace_autoupdate_interval_call, handle_event,
}

-- What an event may do in which state before it and after it: the node is only asked in a client
-- that is connected, and the connection is only closed from there.
abbrev pub IsAllowed : ClientState → ClientState → Action → Type 0
IsAllowed before after Action.disconnect_from_endpoint = (before ≡ connected) × (after ≡ closing)
IsAllowed before after Action.create_node = after ≡ connected
IsAllowed before after Action.read_value = after ≡ connected
IsAllowed before after (Action.enable_monitoring n) = after ≡ connected
IsAllowed before after Action.disable_monitoring = after ≡ connected
IsAllowed before after action = Unit

abbrev pub IsGuarded : ClientState → Outcome → Type 0
IsGuarded before o = All (IsAllowed before o.client.m_state) o.actions

module _ (before : ClientState) where
  IsGuarded-set_state :
      (after state : ClientState) (error : ℕ) (c : Client)
      → All (IsAllowed before after) (set_state_and_error state error c).actions
  unfolding set_state_and_error error_signals state_signals
  IsGuarded-set_state after state error c = ground arith

  IsGuarded-connect :
      (endpoint : Endpoint) (c : Client) → IsGuarded before (client_connect_to_endpoint endpoint c)
  unfolding client_connect_to_endpoint
  IsGuarded-connect endpoint c =
      ground (arith, IsGuarded-set_state c.m_state c.m_state access_denied c)

  -- Both leave the state as it is.
  IsGuarded-update :
      (node : Bool) (c : Client)
      → All (IsAllowed before c.m_state) (update_namespace_array node c).actions
  unfolding update_namespace_array
  IsGuarded-update node c = ground arith

  IsGuarded-setup :
      (c : Client) → All (IsAllowed before c.m_state) (setup_namespace_array_monitoring c).actions
  unfolding setup_namespace_array_monitoring
  IsGuarded-setup c = ground arith

  IsGuarded-read :
      (after : ClientState) (attr : ℕ) (value : Option (List Text)) (c : Client)
      → All (IsAllowed before after) (namespace_array_read attr value c).actions
  unfolding namespace_array_read
  IsGuarded-read after attr none c = (tt, tt)
  IsGuarded-read after attr (some value) c = ground arith

  IsGuarded-each :
      (after : ClientState) (n : ℕ) (slot : Client → Outcome) (c : Client)
      → ((d : Client) → All (IsAllowed before after) (slot d).actions)
      → All (IsAllowed before after) (each_connection n slot c).actions
  unfolding each_connection
  IsGuarded-each after zero slot c h = tt
  IsGuarded-each after (suc n) slot c h =
      All-append _ (slot c).actions (each_connection n slot (slot c).client).actions (h c)
        (IsGuarded-each after n slot (slot c).client h)

  IsGuarded-next :
      (after : ClientState) (f : Client → Outcome) (o : Outcome)
      → All (IsAllowed before after) o.actions
      → All (IsAllowed before after) (f o.client).actions
      → All (IsAllowed before after) (next f o).actions
  unfolding next
  IsGuarded-next after f o h k = All-append _ o.actions (f o.client).actions h k

update-state :
    (node : Bool) (c : Client) → (update_namespace_array node c).client.m_state ≡ c.m_state
unfolding update_namespace_array
update-state node c = ground arith

setup-state : (c : Client) → (setup_namespace_array_monitoring c).client.m_state ≡ c.m_state
unfolding setup_namespace_array_monitoring
setup-state c = ground arith

IsGuarded-slot :
    (before state : ClientState) (error : ℕ) (node : Bool) (c : Client)
    → IsGuarded before (state_changed_slot state error node c)
unfolding state_changed_slot set_state_and_error
IsGuarded-slot before connected error node c =
    let first = set_state_and_error connected error c in
    let second = next (update_namespace_array node) first in
    let kept : second.client.m_state ≡ connected = update-state node first.client in
    let last : (setup_namespace_array_monitoring second.client).client.m_state ≡ connected =
      setup-state second.client ∙ kept in
    subst
      (λ after. All (IsAllowed before after) (next setup_namespace_array_monitoring second).actions)
      (sym last)
      (IsGuarded-next before connected setup_namespace_array_monitoring second
        (IsGuarded-next before connected (update_namespace_array node) first
          (IsGuarded-set_state before connected connected error c)
          (IsGuarded-update before node first.client))
        (subst
          (λ after.
            All (IsAllowed before after) (setup_namespace_array_monitoring second.client).actions)
          kept (IsGuarded-setup before second.client)))
IsGuarded-slot before disconnected error node c = IsGuarded-set_state before _ disconnected error c
IsGuarded-slot before connecting error node c = IsGuarded-set_state before _ connecting error c
IsGuarded-slot before closing error node c = IsGuarded-set_state before _ closing error c

IsGuarded-disconnect : (c : Client) → IsGuarded c.m_state (client_disconnect_from_endpoint c)
unfolding client_disconnect_from_endpoint
IsGuarded-disconnect c = ground arith

-- Whatever a client does in answer to a call or a signal, it creates, reads, monitors or stops
-- monitoring the namespace array node only with the state Connected after it, and asks its
-- implementation to disconnect only from the state Connected, with the state Closing after it.
pub handle_event-IsGuarded :
    (event : Event) (c : Client) → IsGuarded c.m_state (handle_event event c)
unfolding handle_event set_namespace_autoupdate_call set_namespace_autoupdate_interval_call
    monitoring_enabled_slot
handle_event-IsGuarded (state_and_or_error_changed state error node) c =
    IsGuarded-slot c.m_state state error node c
handle_event-IsGuarded (connect endpoint) c = IsGuarded-connect c.m_state endpoint c
handle_event-IsGuarded disconnect c = IsGuarded-disconnect c
handle_event-IsGuarded (set_pki_configuration pki) c = tt
handle_event-IsGuarded (update node) c =
    rw (update-state node c) (IsGuarded-update c.m_state node c)
handle_event-IsGuarded (set_namespace_autoupdate is_enabled) c =
    let d : Client = record c { m_enable_namespace_array_autoupdate = is_enabled } in
    rw (setup-state d) (IsGuarded-setup c.m_state d)
handle_event-IsGuarded (set_namespace_autoupdate_interval interval) c =
    let d : Client = record c { m_namespace_array_update_interval = interval } in
    rw (setup-state d) (IsGuarded-setup c.m_state d)
handle_event-IsGuarded (attribute_read attr value) c = IsGuarded-read c.m_state _ attr value c
handle_event-IsGuarded (attribute_updated attr value) c =
    IsGuarded-each c.m_state _ c.connections (namespace_array_read attr value) c
      (IsGuarded-read c.m_state _ attr value)
handle_event-IsGuarded (enable_monitoring_finished status interval) c =
    IsGuarded-each c.m_state _ c.connections (monitoring_enabled_slot status interval) c (λ d. tt)
