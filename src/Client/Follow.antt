-- ===== src/Client/Follow.antt =====
-- An application that follows the signals of a client knows its state and its namespace array.
use qtopcua.Prelude.{
  ℕ, zero, suc, ◌≡◌, refl, ◌∙◌, Bool, true, List, [], ◌∷◌, ◌++◌, Option, none, some, Bool-cases,
  inl, inr, arith,
}
use qtopcua.Qt.Text.{Text}
use qtopcua.Nodes.Requests.{ClientState, disconnected, connected, closing}
use qtopcua.Client.State.{
  called, disconnect_from_endpoint, Endpoint, Action, state_changed, Client, Outcome, next,
  new_client, set_state_and_error, state_eq, error_signals, state_signals,
  client_connect_to_endpoint, client_disconnect_from_endpoint, update_namespace_array,
  namespace_array_read, setup_namespace_array_monitoring,
}
use qtopcua.Client.Events.{
  Event, state_and_or_error_changed, connect, disconnect, set_pki_configuration, update,
  set_namespace_autoupdate, set_namespace_autoupdate_interval, attribute_read, attribute_updated,
  enable_monitoring_finished, state_changed_slot, monitoring_enabled_slot, each_connection,
  set_namespace_autoupdate_call, set_namespace_autoupdate_interval_call, handle_event, run,
}

-- The state of the last stateChanged signal.
unfoldable pub follow : List Action → ClientState → ClientState
follow [] state = state
follow (state_changed state ∷ actions) before = follow actions state
follow (action ∷ actions) before = follow actions before

follow-append :
    (xs ys : List Action) (state : ClientState)
    → follow (xs ++ ys) state ≡ follow ys (follow xs state)
unfolding follow
follow-append [] ys state = refl
follow-append (Action.error_changed e ∷ xs) ys state = follow-append xs ys state
follow-append (Action.state_changed s ∷ xs) ys state = follow-append xs ys s
follow-append (Action.connected_signal ∷ xs) ys state = follow-append xs ys state
follow-append (Action.disconnected_signal ∷ xs) ys state = follow-append xs ys state
follow-append (Action.namespace_array_changed l ∷ xs) ys state = follow-append xs ys state
follow-append (Action.namespace_array_updated l ∷ xs) ys state = follow-append xs ys state
follow-append (Action.connect_to_endpoint e ∷ xs) ys state = follow-append xs ys state
follow-append (Action.disconnect_from_endpoint ∷ xs) ys state = follow-append xs ys state
follow-append (Action.create_node ∷ xs) ys state = follow-append xs ys state
follow-append (Action.read_value ∷ xs) ys state = follow-append xs ys state
follow-append (Action.enable_monitoring n ∷ xs) ys state = follow-append xs ys state
follow-append (Action.disable_monitoring ∷ xs) ys state = follow-append xs ys state

-- The signals of a call lead from the state before to the state after.
abbrev pub Leads : Client → Outcome → Type 0
Leads c o = follow o.actions c.m_state ≡ o.client.m_state

Leads-next :
    (c : Client) (f : Client → Outcome) (o : Outcome)
    → Leads c o
    → Leads o.client (f o.client)
    → Leads c (next f o)
unfolding next
Leads-next c f o h k = follow-append o.actions (f o.client).actions c.m_state ∙ rw h k

state_eq-eq : (a b : ClientState) → state_eq a b ≡ true → a ≡ b
state_eq-eq a b e = ground arith

Leads-set_state :
    (state : ClientState) (error : ℕ) (c : Client) → Leads c (set_state_and_error state error c)
unfolding set_state_and_error error_signals state_signals follow
Leads-set_state state error c = ground (arith, state_eq-eq c.m_state state)

Leads-connect : (endpoint : Endpoint) (c : Client) → Leads c (client_connect_to_endpoint endpoint c)
unfolding client_connect_to_endpoint follow
Leads-connect endpoint c = ground (arith, Leads-set_state c.m_state 2 c)

Leads-disconnect : (c : Client) → Leads c (client_disconnect_from_endpoint c)
unfolding client_disconnect_from_endpoint follow
Leads-disconnect c = elim (Bool-cases (state_eq c.m_state connected)) [
  | inl is ↦ rw is (
      Leads-next c (called disconnect_from_endpoint) (set_state_and_error closing 0 c)
        (Leads-set_state closing 0 c) refl)
  | inr other ↦ rw other refl
]

Leads-update : (node : Bool) (c : Client) → Leads c (update_namespace_array node c)
unfolding update_namespace_array follow
Leads-update node c = ground arith

Leads-setup : (c : Client) → Leads c (setup_namespace_array_monitoring c)
unfolding setup_namespace_array_monitoring follow
Leads-setup c = ground arith

Leads-read :
    (attr : ℕ) (value : Option (List Text)) (c : Client)
    → Leads c (namespace_array_read attr value c)
unfolding namespace_array_read follow
Leads-read attr none c = refl
Leads-read attr (some value) c = ground arith

Leads-each :
    (n : ℕ) (slot : Client → Outcome) (c : Client)
    → ((d : Client) → Leads d (slot d))
    → Leads c (each_connection n slot c)
unfolding each_connection follow
Leads-each zero slot c h = refl
Leads-each (suc n) slot c h =
    follow-append (slot c).actions (each_connection n slot (slot c).client).actions c.m_state
    ∙ rw (h c) (Leads-each n slot (slot c).client h)

Leads-slot :
    (state : ClientState) (error : ℕ) (node : Bool) (c : Client)
    → Leads c (state_changed_slot state error node c)
unfolding state_changed_slot
Leads-slot state error node c = elim (Bool-cases (state_eq state connected)) [
  | inl is ↦
      let first = set_state_and_error state error c in
      let second = next (update_namespace_array node) first in
      rw is (
        Leads-next c setup_namespace_array_monitoring second
          (Leads-next c (update_namespace_array node) first (Leads-set_state state error c)
            (Leads-update node first.client))
          (Leads-setup second.client))
  | inr other ↦ rw other (Leads-set_state state error c)
]

Leads-event : (event : Event) (c : Client) → Leads c (handle_event event c)
unfolding handle_event set_namespace_autoupdate_call set_namespace_autoupdate_interval_call
    monitoring_enabled_slot follow
Leads-event (state_and_or_error_changed state error node) c = Leads-slot state error node c
Leads-event (connect endpoint) c = Leads-connect endpoint c
Leads-event disconnect c = Leads-disconnect c
Leads-event (set_pki_configuration pki) c = refl
Leads-event (update node) c = Leads-update node c
Leads-event (set_namespace_autoupdate is_enabled) c =
    Leads-setup (record c { m_enable_namespace_array_autoupdate = is_enabled })
Leads-event (set_namespace_autoupdate_interval interval) c =
    Leads-setup (record c { m_namespace_array_update_interval = interval })
Leads-event (attribute_read attr value) c = Leads-read attr value c
Leads-event (attribute_updated attr value) c =
    Leads-each c.connections (namespace_array_read attr value) c (Leads-read attr value)
Leads-event (enable_monitoring_finished status interval) c =
    Leads-each c.connections (monitoring_enabled_slot status interval) c (λ d. ground arith)

Leads-run : (events : List Event) (c : Client) → Leads c (run events c)
unfolding run follow
Leads-run [] c = refl
Leads-run (event ∷ events) c =
    let first = handle_event event c in
    follow-append first.actions (run events first.client).actions c.m_state
    ∙ rw (Leads-event event c) (Leads-run events first.client)

-- After any sequence of calls and signals from a new client, the state of the last stateChanged
-- signal, Disconnected if there was none, is the state of the client.
pub follow-run :
    (events : List Event)
    → follow (run events new_client).actions disconnected ≡ (run events new_client).client.m_state
follow-run events = Leads-run events new_client
