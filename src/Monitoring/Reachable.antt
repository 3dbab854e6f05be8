-- ===== src/Monitoring/Reachable.antt =====
-- The states that a QOpen62541Subscription gets into, call by call.
use qtopcua.Prelude.{
  ℕ, ◌≡◌, refl, subst, Bool, List, Option, none, some, Option-cases, Bool-cases, inl, inr, find-nil,
  Map, find2-missing, ◌==◌, arith, [],
}
use qtopcua.Monitoring.Parameters.{Parameter, Variant, MonitoringParameters}
use qtopcua.Monitoring.Stack.{Stack, DataValue, Signal}
use qtopcua.Monitoring.Subscription.{
  MonitoredItem, Subscription, Result, good, new_subscription, create_subscription_request,
  create_on_server, remove_on_server, get_item_for_attribute,
}
use qtopcua.Monitoring.Items.{add_attribute_monitored_item, remove_attribute_monitored_item}
use qtopcua.Monitoring.Notify.{monitored_value_updated, event_received, send_timeout_notification}
use qtopcua.Monitoring.ModifyItem.{modify_monitoring}
use qtopcua.Monitoring.Consistent.{IsConsistent, IsConsistent-members}
use qtopcua.Monitoring.Delivery.{notify-defined}
use qtopcua.Monitoring.Adding.{HasFreshIds, add_attribute_monitored_item-IsConsistent}
use qtopcua.Monitoring.Removing.{remove_attribute_monitored_item-Removal, remove_on_server-Cleared}
use qtopcua.Monitoring.TimingOut.{send_timeout_notification-TimedOut}
use qtopcua.Monitoring.Modifying.{IsSound, HasResults, modify_monitoring-IsSound}

-- Every call may meet a server that answers in its own way. An item is only added for an attribute
-- that is not monitored, which the backend tests before, with an id that is not in use.
pub data Reachable : Subscription → Type 0 where
  new :
      (stack : Stack) (settings : MonitoringParameters)
      → Reachable (new_subscription stack settings)
  on_server :
      (stack : Stack) (s : Subscription) → Reachable s → Reachable (create_on_server stack s).state
  added :
      (stack : Stack) (handle attr node_id : ℕ) (settings : MonitoringParameters) (s : Subscription)
      → Reachable s
      → get_item_for_attribute handle attr s ≡ none
      → HasFreshIds stack s
      → Reachable (add_attribute_monitored_item stack handle attr node_id settings s).state
  removed :
      (stack : Stack) (handle attr : ℕ) (s : Subscription) (r : Result Bool)
      → Reachable s
      → remove_attribute_monitored_item stack handle attr s ≡ some r
      → Reachable r.state
  cleared :
      (stack : Stack) (s : Subscription) (r : Result Bool)
      → Reachable s
      → remove_on_server stack s ≡ some r
      → Reachable r.state
  modified :
      (stack : Stack) (handle attr : ℕ) (item : Parameter) (value : Variant) (s : Subscription)
      (r : Result Bool)
      → Reachable s
      → HasResults stack
      → modify_monitoring stack handle attr item value s ≡ some r
      → Reachable r.state
  timed_out :
      (s : Subscription) (r : Result (Unit {0}))
      → Reachable s
      → send_timeout_notification s ≡ some r
      → Reachable r.state

IsSound-state :
    (o : Option (Result Bool)) (r : Result Bool) → IsSound o → o ≡ some r → IsConsistent r.state
IsSound-state o r sound e =
    let same : sound.0 ≡ r = cc in subst (λ x. IsConsistent x.state) same sound.2

new-IsConsistent :
    (stack : Stack) (settings : MonitoringParameters)
    → IsConsistent (new_subscription stack settings)
unfolding new_subscription
new-IsConsistent stack settings = record {
  linked = λ p item e. absurd (ground (arith, e, find-nil {V = MonitoredItem} p));
  node_live = λ handle attr p e.
      absurd (ground (arith, e, find2-missing {V = ℕ} handle attr [] (find-nil handle)));
  id_live = λ id p e. absurd (ground (arith, e, find-nil {V = ℕ} id));
  ids_unique = tt;
  nodes_unique = (tt, λ h. rw (find-nil {V = Map ℕ} h) tt);
  fresh = λ p h. find-nil p;
}

on_server-IsConsistent :
    (stack : Stack) (s : Subscription)
    → IsConsistent s
    → IsConsistent (create_on_server stack s).state
unfolding create_on_server
on_server-IsConsistent stack s c =
    elim (Bool-cases
      ((stack.create_subscription (create_subscription_request s)).service_result == good)) [
        | inl ok ↦ rw ok (IsConsistent-members s c)
        | inr bad ↦ rw bad c
      ]

removed-IsConsistent :
    (stack : Stack) (handle attr : ℕ) (s : Subscription)
    → IsConsistent s
    → IsSound (remove_attribute_monitored_item stack handle attr s)
unfolding remove_attribute_monitored_item
removed-IsConsistent stack handle attr s c =
    elim (Option-cases (get_item_for_attribute handle attr s)) [
      | inl missing ↦ rw (missing, remove_attribute_monitored_item) (_, refl, c)
      | inr found ↦
          let r = remove_attribute_monitored_item-Removal stack handle attr found.0 s c found.1 in
          (r.0, r.1, r.2.consistent)
    ]

timed_out-IsConsistent :
    (s : Subscription) (r : Result (Unit {0}))
    → IsConsistent s
    → send_timeout_notification s ≡ some r
    → IsConsistent r.state
timed_out-IsConsistent s r c e =
    let sent = send_timeout_notification-TimedOut s c in
    let same : sent.0 ≡ r = cc in subst (λ x. IsConsistent x.state) same sent.2.consistent

-- Every state that a subscription can get into is consistent: each item on the heap is in both
-- hashes under its handle and attribute and under its id, each entry points to an item with its
-- key, no key has two entries, and no item has an address that is still to be given out. States are
-- reached by calls that add an item only for an attribute that is not monitored, under an id that
-- is not in use.
pub Reachable-IsConsistent : (s : Subscription) → Reachable s → IsConsistent s
Reachable-IsConsistent s (new stack settings) = new-IsConsistent stack settings
Reachable-IsConsistent s (on_server stack t r) =
    on_server-IsConsistent stack t (Reachable-IsConsistent t r)
Reachable-IsConsistent s (added stack handle attr node_id settings t r free ids) =
    add_attribute_monitored_item-IsConsistent stack handle attr node_id settings t
      (Reachable-IsConsistent t r) free ids
Reachable-IsConsistent s (removed stack handle attr t q r e) =
    IsSound-state _ q (removed-IsConsistent stack handle attr t (Reachable-IsConsistent t r)) e
Reachable-IsConsistent s (cleared stack t q r e) =
    let all = remove_on_server-Cleared stack t (Reachable-IsConsistent t r) in
    IsSound-state _ q (all.0, all.1, all.2.consistent) e
Reachable-IsConsistent s (modified stack handle attr item value t q r has e) =
    IsSound-state _ q
      (modify_monitoring-IsSound t (Reachable-IsConsistent t r) stack handle attr item value has) e
Reachable-IsConsistent s (timed_out t q r e) =
    timed_out-IsConsistent t q (Reachable-IsConsistent t r) e

-- In every state that a subscription can get into, removing a monitored item, removing the
-- subscription and modifying a parameter use no pointer that dangles and leave a consistent state,
-- and a value or an event for any item id, and a timeout, are handled without one. The services
-- that set a mode and that modify an item come with a result where their service result is Good;
-- states are reached by calls that add an item only for an attribute that is not monitored, under
-- an id that is not in use.
pub IsSound-Reachable :
    (s : Subscription) (stack : Stack) (handle attr : ℕ) (item : Parameter) (value : Variant)
    (id : ℕ) (notified : Option DataValue) (fields : List ℕ)
    → Reachable s
    → HasResults stack
    → IsSound (remove_attribute_monitored_item stack handle attr s)
      × IsSound (remove_on_server stack s)
      × IsSound (modify_monitoring stack handle attr item value s)
      × ((signals : List Signal) × (monitored_value_updated id notified s ≡ some signals))
      × ((signals : List Signal) × (event_received id fields s ≡ some signals))
      × ((r : Result (Unit {0})) × (send_timeout_notification s ≡ some r))
unfolding monitored_value_updated event_received
IsSound-Reachable s stack handle attr item value id notified fields reachable has =
    let c = Reachable-IsConsistent s reachable in
    let all = remove_on_server-Cleared stack s c in
    let sent = send_timeout_notification-TimedOut s c in
    (
      removed-IsConsistent stack handle attr s c,
      (all.0, all.1, all.2.consistent),
      modify_monitoring-IsSound s c stack handle attr item value has,
      notify-defined id s c _,
      notify-defined id s c _,
      (sent.0, sent.1),
    )
