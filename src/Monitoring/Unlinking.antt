-- ===== src/Monitoring/Unlinking.antt =====
-- A monitored item that is taken out of both hashes of a subscription.
use qtopcua.Prelude.{
  ℕ, ◌≡◌, some, arith, find, remove, find2, remove2, find-remove, find2-remove2, remove-IsUnique,
  remove2-IsUnique2,
}
use qtopcua.Monitoring.Subscription.{MonitoredItem, Subscription}
use qtopcua.Monitoring.Consistent.{IsConsistent}

-- The state without the object at an address.
abbrev pub without_item : ℕ → MonitoredItem → Subscription → Subscription
without_item p item s = record s {
  m_item_id_to_item_mapping = remove item.monitored_item_id s.m_item_id_to_item_mapping;
  m_node_handle_to_item_mapping = remove2 item.handle item.attr s.m_node_handle_to_item_mapping;
  heap = remove p s.heap;
}

module _ (p : ℕ) (item : MonitoredItem) (s : Subscription) (c : IsConsistent s)
    (there : find p s.heap ≡ some item) where
  abbrev rest : Subscription
  rest = without_item p item s

  linked_rest :
      (q : ℕ) (x : MonitoredItem)
      → find q rest.heap ≡ some x
      → (find2 x.handle x.attr rest.m_node_handle_to_item_mapping ≡ some q)
        × (find x.monitored_item_id rest.m_item_id_to_item_mapping ≡ some q)
  linked_rest q x e = ground (
    arith,
    find-remove p q s.heap,
    find2-remove2 item.handle item.attr x.handle x.attr s.m_node_handle_to_item_mapping,
    find-remove item.monitored_item_id x.monitored_item_id s.m_item_id_to_item_mapping,
    c.linked p item,
    c.linked q x,
  )

  node_live_rest :
      (h a q : ℕ)
      → find2 h a rest.m_node_handle_to_item_mapping ≡ some q
      → (x : MonitoredItem) × (find q rest.heap ≡ some x) × (x.handle ≡ h) × (x.attr ≡ a)
  node_live_rest h a q e =
      let before : find2 h a s.m_node_handle_to_item_mapping ≡ some q =
        ground (arith, find2-remove2 item.handle item.attr h a s.m_node_handle_to_item_mapping) in
      let live = c.node_live h a q before in
      (
        live.0,
        ground (
          arith,
          live.1,
          live.2,
          live.3,
          there,
          find2-remove2 item.handle item.attr h a s.m_node_handle_to_item_mapping,
          find-remove p q s.heap,
        ),
        live.2,
        live.3,
      )

  id_live_rest :
      (id q : ℕ)
      → find id rest.m_item_id_to_item_mapping ≡ some q
      → (x : MonitoredItem) × (find q rest.heap ≡ some x) × (x.monitored_item_id ≡ id)
  id_live_rest id q e =
      let before : find id s.m_item_id_to_item_mapping ≡ some q =
        ground (arith, find-remove item.monitored_item_id id s.m_item_id_to_item_mapping) in
      let live = c.id_live id q before in
      (
        live.0,
        ground (
          arith,
          live.1,
          live.2,
          there,
          find-remove item.monitored_item_id id s.m_item_id_to_item_mapping,
          find-remove p q s.heap,
        ),
        live.2,
      )

  pub without_item-IsConsistent : IsConsistent rest
  without_item-IsConsistent = record {
    linked = linked_rest;
    node_live = node_live_rest;
    id_live = id_live_rest;
    ids_unique = remove-IsUnique item.monitored_item_id s.m_item_id_to_item_mapping c.ids_unique;
    nodes_unique =
        remove2-IsUnique2 item.handle item.attr s.m_node_handle_to_item_mapping c.nodes_unique;
    fresh = λ q h. ground (arith, c.fresh q, find-remove p q s.heap);
  }
