-- ===== src/Monitoring/Linking.antt =====
-- A monitored item that is entered into both hashes of a subscription.
use qtopcua.Prelude.{
  ℕ, ◌≡◌, ◌&&◌, none, some, arith, ◌==◌, Bool-cases, inl, inr, find, find2, find-insert,
  find2-insert2, insert-IsUnique, insert2-IsUnique2,
}
use qtopcua.Monitoring.Parameters.{MonitoringParameters}
use qtopcua.Monitoring.Stack.{CreateItemResult}
use qtopcua.Monitoring.Subscription.{MonitoredItem, Subscription}
use qtopcua.Monitoring.Items.{with_item, new_item}
use qtopcua.Monitoring.Consistent.{IsConsistent}

module _ (handle attr : ℕ) (settings : MonitoringParameters) (res : CreateItemResult)
    (s : Subscription) (c : IsConsistent s)
    (new_node : find2 handle attr s.m_node_handle_to_item_mapping ≡ none)
    (new_id : find res.monitored_item_id s.m_item_id_to_item_mapping ≡ none) where
  abbrev after : Subscription
  after = with_item handle attr settings res s

  linked_after :
      (p : ℕ) (item : MonitoredItem)
      → find p after.heap ≡ some item
      → (find2 item.handle item.attr after.m_node_handle_to_item_mapping ≡ some p)
        × (find item.monitored_item_id after.m_item_id_to_item_mapping ≡ some p)
  linked_after p item e = ground (
    arith,
    find-insert s.next_address p (new_item handle attr settings res s) s.heap,
    find2-insert2 handle attr item.handle item.attr s.next_address s.m_node_handle_to_item_mapping,
    find-insert res.monitored_item_id item.monitored_item_id s.next_address
        s.m_item_id_to_item_mapping,
    c.linked p item,
  )

  node_live_after :
      (h a p : ℕ)
      → find2 h a after.m_node_handle_to_item_mapping ≡ some p
      → (item : MonitoredItem) × (find p after.heap ≡ some item)
        × (item.handle ≡ h)
        × (item.attr ≡ a)
  node_live_after h a p e = elim (Bool-cases (handle == h && attr == a)) [
    | inl new ↦ (
      new_item handle attr settings res s,
      ground (
        arith,
        find2-insert2 handle attr h a s.next_address s.m_node_handle_to_item_mapping,
        find-insert s.next_address p (new_item handle attr settings res s) s.heap,
      ),
      ground arith,
      ground arith,
    )
    | inr old ↦
        let live = c.node_live h a p (
          ground (
            arith,
            find2-insert2 handle attr h a s.next_address s.m_node_handle_to_item_mapping,
          )) in
        (
          live.0,
          ground (
            arith,
            live.1,
            c.fresh p,
            find-insert s.next_address p (new_item handle attr settings res s) s.heap,
          ),
          live.2,
          live.3,
        )
  ]

  id_live_after :
      (id p : ℕ)
      → find id after.m_item_id_to_item_mapping ≡ some p
      → (item : MonitoredItem) × (find p after.heap ≡ some item) × (item.monitored_item_id ≡ id)
  id_live_after id p e = elim (Bool-cases (res.monitored_item_id == id)) [
    | inl new ↦ (
      new_item handle attr settings res s,
      ground (
        arith,
        find-insert res.monitored_item_id id s.next_address s.m_item_id_to_item_mapping,
        find-insert s.next_address p (new_item handle attr settings res s) s.heap,
      ),
      ground arith,
    )
    | inr old ↦
        let live = c.id_live id p (
          ground (
            arith,
            find-insert res.monitored_item_id id s.next_address s.m_item_id_to_item_mapping,
          )) in
        (
          live.0,
          ground (
            arith,
            live.1,
            c.fresh p,
            find-insert s.next_address p (new_item handle attr settings res s) s.heap,
          ),
          live.2,
        )
  ]

  pub with_item-IsConsistent : IsConsistent after
  with_item-IsConsistent = record {
    linked = linked_after;
    node_live = node_live_after;
    id_live = id_live_after;
    ids_unique =
        insert-IsUnique res.monitored_item_id s.next_address s.m_item_id_to_item_mapping
          c.ids_unique;
    nodes_unique =
        insert2-IsUnique2 handle attr s.m_node_handle_to_item_mapping c.nodes_unique s.next_address;
    fresh = λ p h. ground (
      arith,
      c.fresh p,
      find-insert s.next_address p (new_item handle attr settings res s) s.heap,
    );
  }
