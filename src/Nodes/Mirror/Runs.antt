-- ===== src/Nodes/Mirror/Runs.antt =====
-- Calls of a subscription for one attribute, one after the other, with the node that its signals
-- reach.
use qtopcua.Prelude.{ℕ, ◌≡◌, Bool, none, some, find, inl}
use qtopcua.Monitoring.Parameters.{Parameter, Variant, MonitoringParameters}
use qtopcua.Monitoring.Stack.{Stack}
use qtopcua.Monitoring.Subscription.{Subscription, Result, get_item_for_attribute}
use qtopcua.Monitoring.Items.{add_attribute_monitored_item, remove_attribute_monitored_item}
use qtopcua.Monitoring.ModifyItem.{modify_monitoring}
use qtopcua.Nodes.Handles.{NodeImpl, ClientImpl}
use qtopcua.Nodes.Mirror.{item_status, NodeAt, Mirrors}
use qtopcua.Nodes.Mirror.Calls.{after_call, added-Mirrors, KeepsUp-some, KeepsUp-removed}
use qtopcua.Nodes.Mirror.Modified.{KeepsUp-modify_monitoring}

-- The server may answer each call in its own way. An item is only added for an attribute that is
-- not monitored, which the backend tests before.
pub data Run (handle attr : ℕ) (s : Subscription) (c : ClientImpl)
    : Subscription → ClientImpl → Type 0 where
  start : Run handle attr s c s c
  add :
      (stack : Stack) (node_id : ℕ) (settings : MonitoringParameters) (t : Subscription)
      (d : ClientImpl)
      → Run handle attr s c t d
      → get_item_for_attribute handle attr t ≡ none
      → Run handle attr s c
          (add_attribute_monitored_item stack handle attr node_id settings t).state
          (after_call (add_attribute_monitored_item stack handle attr node_id settings t) d)
  modify :
      (stack : Stack) (item : Parameter) (value : Variant) (t : Subscription) (d : ClientImpl)
      (r : Result Bool)
      → Run handle attr s c t d
      → modify_monitoring stack handle attr item value t ≡ some r
      → Run handle attr s c r.state (after_call r d)
  remove :
      (stack : Stack) (t : Subscription) (d : ClientImpl) (r : Result Bool)
      → Run handle attr s c t d
      → remove_attribute_monitored_item stack handle attr t ≡ some r
      → Run handle attr s c r.state (after_call r d)

-- From a subscription that has no item for an attribute of a node, and a node that is found under
-- its handle and has no monitoring status of the attribute, any sequence of additions and removals
-- of a monitored item for that attribute and of calls of modifyMonitoring for it with any parameter
-- and value, whose signals reach the nodes and whose answers the server chooses, and in which no
-- pointer that dangles and no result that is missing is used, keeps the two in step: an attribute
-- without an item has no status at the node or one that is not Good, and an attribute with an item
-- has a Good status with the own parameters of the item. These are all but the filter result, the
-- monitoring mode and the parameters of the subscription, which an item does not take over when
-- they are modified. An item is only added where the attribute has none.
pub Mirrors-run :
    (handle attr : ℕ) (s : Subscription) (c : ClientImpl) (obj : NodeImpl)
    → NodeAt handle obj c
    → item_status handle attr s ≡ none
    → find attr obj.front.m_monitoring_status ≡ none
    → (t : Subscription) (d : ClientImpl) → Run handle attr s c t d
    → Mirrors handle attr t d
Mirrors-run handle attr s c obj node free blank t d start = record {
  obj = obj;
  at_node = node;
  agree = rw free (inl blank);
}
Mirrors-run handle attr s c obj node free blank t d
      (add stack node_id settings u e run unmonitored) =
    added-Mirrors stack handle attr u e (Mirrors-run handle attr s c obj node free blank u e run)
      node_id settings unmonitored
Mirrors-run handle attr s c obj node free blank t d (modify stack item value u e r run done) =
    let before = Mirrors-run handle attr s c obj node free blank u e run in
    KeepsUp-some stack handle attr u e before _ r
      (KeepsUp-modify_monitoring stack handle attr u e before item value) done
Mirrors-run handle attr s c obj node free blank t d (remove stack u e r run done) =
    let before = Mirrors-run handle attr s c obj node free blank u e run in
    KeepsUp-some stack handle attr u e before _ r (KeepsUp-removed stack handle attr u e before)
      done
