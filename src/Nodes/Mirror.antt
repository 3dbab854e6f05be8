-- ===== src/Nodes/Mirror.antt =====
-- The monitoring status that a node shows, beside the items of the subscription that monitors it:
-- QOpcUaNodePrivate's slots (opcua/client/qopcuanode_p.h) fed with the signals of
-- QOpen62541Subscription (plugins/opcua/open62541/qopen62541subscription.cpp).
use qtopcua.Prelude.{
  ℕ, ◌≡◌, refl, ap, sym, ◌∙◌, ◌⊎◌, Bool, true, false, List, [], ◌∷◌, Option, none, some, ◌==◌, find,
  insert, find-insert, find-remove, Option-cases, Bool-cases, ==_iff, inl, inr, arith,
}
use qtopcua.Monitoring.Parameters.{MonitoringParameters, invalid}
use qtopcua.Monitoring.Stack.{Signal, monitoring_enable_disable, monitoring_status_changed}
use qtopcua.Monitoring.Subscription.{MonitoredItem, Subscription, good, get_item_for_attribute}
use qtopcua.Nodes.Node.{
  Node, Handled, bad_entry_exists, enable_disable_handler, status_changed_handler, merged,
  status_changed_map,
}
use qtopcua.Nodes.Handles.{NodeImpl, ClientImpl}
use qtopcua.Nodes.Dispatch.{
  deliver, handle_monitoring_enable_disable, handle_monitoring_status_changed, receive, receive_all,
}
pub mod Items
pub mod Calls
pub mod Told
pub mod Modified
pub mod Mode
pub mod Runs

-- The parameters of the subscription's item for an attribute.
unfoldable pub item_status : ℕ → ℕ → Subscription → Option MonitoringParameters
item_status handle attr s = elim (get_item_for_attribute handle attr s) [
  | none ↦ none
  | some p ↦ elim (find p s.heap) [ none ↦ none | some item ↦ some item.parameters ]
]

-- A handle leads to an object that exists.
pub record NodeAt (handle : ℕ) (obj : NodeImpl) (c : ClientImpl) : Type 0 where
  pub address : ℕ
  pub leads : find handle c.m_handles ≡ some address
  pub there : find address c.objects ≡ some obj

-- The parameters that only the item has: those of its subscription and the monitoring mode are left
-- out, which an item does not take over when they are modified, and the filter result, which is not
-- kept by the item that was created with it.
abbrev pub own_parameters : MonitoringParameters → MonitoringParameters
own_parameters p = record p {
  filter_result = invalid;
  monitoring_mode = 0;
  publishing_enabled = false;
  publishing_interval = 0;
  lifetime_count = 0;
  max_keep_alive_count = 0;
  max_notifications_per_publish = 0;
  priority = 0;
}

-- The parameters of an item with those that `own_parameters` leaves out taken from others.
abbrev pub mixed : (p q : MonitoringParameters) → MonitoringParameters
mixed p q = record p {
  filter_result = q.filter_result;
  monitoring_mode = q.monitoring_mode;
  publishing_enabled = q.publishing_enabled;
  publishing_interval = q.publishing_interval;
  lifetime_count = q.lifetime_count;
  max_keep_alive_count = q.max_keep_alive_count;
  max_notifications_per_publish = q.max_notifications_per_publish;
  priority = q.priority;
}

-- An attribute without an item has no status at a node, or one that is not Good; that of an
-- attribute with an item is Good and has the own parameters of the item.
abbrev pub Agree : Option MonitoringParameters → Option MonitoringParameters → Type 0
Agree none status =
    (status ≡ none)
    ⊎ ((q : MonitoringParameters) × (status ≡ some q) × ((q.status_code == good) ≡ false))
Agree (some p) status =
    (q : MonitoringParameters) × (status ≡ some q)
    × (own_parameters p ≡ own_parameters q)
    × (q.status_code ≡ good)

pub record Mirrors (handle attr : ℕ) (s : Subscription) (c : ClientImpl) : Type 0 where
  pub obj : NodeImpl
  pub at_node : NodeAt handle obj c
  pub agree : Agree (item_status handle attr s) (find attr obj.front.m_monitoring_status)

module _ (handle : ℕ) (obj : NodeImpl) (c : ClientImpl) (n : NodeAt handle obj c) where
  pub NodeAt-deliver :
      (handler : Node → Handled)
      → NodeAt handle
          (record obj { front = (handler obj.front).node })
          (deliver handler handle c).client
  unfolding deliver
  NodeAt-deliver handler =
      rw (n.leads, deliver)
        (rw (n.there, deliver)
          (record {
            address = n.address;
            leads = n.leads;
            there = ground (
              arith,
              find-insert n.address n.address (record obj { front = (handler obj.front).node })
                  c.objects,
            );
          }))

  pub NodeAt-enable_disable :
      (attr : ℕ) (subscribe : Bool) (status : MonitoringParameters)
      → NodeAt handle
          (record obj { front = (enable_disable_handler attr subscribe status obj.front).node })
          (receive_all (monitoring_enable_disable handle attr subscribe status ∷ []) c).client
  unfolding receive_all receive
  NodeAt-enable_disable attr subscribe status =
      NodeAt-deliver (enable_disable_handler attr subscribe status)

  pub NodeAt-status_changed :
      (attr items : ℕ) (status : MonitoringParameters)
      → NodeAt handle
          (record obj { front = (status_changed_handler attr items status obj.front).node })
          (receive_all (monitoring_status_changed handle attr items status ∷ []) c).client
  unfolding receive_all receive
  NodeAt-status_changed attr items status =
      NodeAt-deliver (status_changed_handler attr items status)
