-- ===== src/Monitoring/Consistent.antt =====
-- How the two hashes of a QOpen62541Subscription and its items on the heap belong together.
use qtopcua.Prelude.{
  ℕ, ◌≤◌, ◌≡◌, sym, Bool, none, some, Option-cases, inl, inr, find, find2, find2-missing,
  find2-found, IsUnique, IsUnique2,
}
use qtopcua.Monitoring.Subscription.{MonitoredItem, Subscription, get_item_for_attribute}

-- An object on the heap is in both hashes, a key has one entry, an entry of a hash points to an object with its key, and
-- no object has an address that is still to be given out.
pub record IsConsistent (s : Subscription) : Type 0 where
  pub linked :
      (p : ℕ) (item : MonitoredItem)
      → find p s.heap ≡ some item
      → (find2 item.handle item.attr s.m_node_handle_to_item_mapping ≡ some p)
        × (find item.monitored_item_id s.m_item_id_to_item_mapping ≡ some p)
  pub node_live :
      (handle attr p : ℕ)
      → find2 handle attr s.m_node_handle_to_item_mapping ≡ some p
      → (item : MonitoredItem) × (find p s.heap ≡ some item)
        × (item.handle ≡ handle)
        × (item.attr ≡ attr)
  pub id_live :
      (id p : ℕ)
      → find id s.m_item_id_to_item_mapping ≡ some p
      → (item : MonitoredItem) × (find p s.heap ≡ some item) × (item.monitored_item_id ≡ id)
  pub ids_unique : IsUnique s.m_item_id_to_item_mapping
  pub nodes_unique : IsUnique2 s.m_node_handle_to_item_mapping
  pub fresh : (p : ℕ) → s.next_address ≤ p → find p s.heap ≡ none

-- The other members do not matter.
pub IsConsistent-members :
    {interval subscription_id lifetime keepalive shared priority notifications client_handle : ℕ}
    {timed_out : Bool} (s : Subscription)
    → IsConsistent s
    → IsConsistent (record s {
      m_interval = interval;
      m_subscription_id = subscription_id;
      m_lifetime_count = lifetime;
      m_max_keepalive_count = keepalive;
      m_shared = shared;
      m_priority = priority;
      m_max_notifications_per_publish = notifications;
      m_client_handle = client_handle;
      m_timeout = timed_out;
    })
IsConsistent-members s c = record {
  linked = c.linked;
  node_live = c.node_live;
  id_live = c.id_live;
  ids_unique = c.ids_unique;
  nodes_unique = c.nodes_unique;
  fresh = c.fresh;
}

-- The lookup of the code, in two steps, is the one in the hash of hashes.
pub get_item-find2 :
    (handle attr : ℕ) (s : Subscription)
    → get_item_for_attribute handle attr s ≡ find2 handle attr s.m_node_handle_to_item_mapping
unfolding get_item_for_attribute
get_item-find2 handle attr s = elim (Option-cases (find handle s.m_node_handle_to_item_mapping)) [
  | inl e ↦
      rw (e, get_item_for_attribute)
        (sym (find2-missing handle attr s.m_node_handle_to_item_mapping e))
  | inr f ↦
      rw (f.1, get_item_for_attribute)
        (sym (find2-found handle attr s.m_node_handle_to_item_mapping f.0 f.1))
]
