-- ===== src/Monitoring/Removing.antt =====
-- What removeAttributeMonitoredItem and removeOnServer do to a subscription, and to whom it sends
-- values after them.
use qtopcua.Prelude.{
  ℕ, ◌≡◌, refl, sym, ◌∙◌, Bool, true, false, ◌&&◌, List, [], ◌∷◌, Option, none, some, arith,
  if◌then◌else◌, ◌==◌, Bool-cases, Option-cases, ◌⊎◌, inl, inr, length, find, find-remove,
  find2-remove2, find-nil, Map, find2-missing,
}
use qtopcua.Monitoring.Parameters.{only_status}
use qtopcua.Monitoring.Stack.{Stack, DataValue, monitoring_enable_disable}
use qtopcua.Monitoring.Subscription.{
  MonitoredItem, Subscription, Result, delete_all, without_items, good, disabled_signals,
  bad_timeout, bad_disconnect, get_item_for_attribute, remove_on_server,
}
use qtopcua.Monitoring.Items.{remove_attribute_monitored_item}
use qtopcua.Monitoring.Notify.{monitored_value_updated, monitored_items_count}
use qtopcua.Monitoring.Delivery.{value-unknown, value-same}
use qtopcua.Monitoring.Objects.{
  is_announced, disabled-among, Collected, Collected-live, delete_all-none, delete_all-entry,
}
use qtopcua.Monitoring.Consistent.{IsConsistent, get_item-find2}
use qtopcua.Monitoring.Unlinking.{without_item, without_item-IsConsistent}

-- What is promised of a removal: it is carried out, the attribute is no longer monitored, all others
-- are as before, and values of the item's id are no longer sent, while those of other ids are.
pub record Removal (handle attr : ℕ) (s : Subscription) (r : Result Bool) : Type 0 where
  pub item : MonitoredItem
  pub registered :
      find item.monitored_item_id s.m_item_id_to_item_mapping ≡ get_item_for_attribute handle attr s
  pub carried_out : r.returned ≡ true
  pub consistent : IsConsistent r.state
  pub monitored :
      (h a : ℕ)
      → get_item_for_attribute h a r.state
        ≡ (if handle == h && attr == a then none else get_item_for_attribute h a s)
  pub values :
      (id : ℕ) (value : Option DataValue)
      → monitored_value_updated id value r.state
        ≡ (if item.monitored_item_id == id then some [] else monitored_value_updated id value s)

module _ (stack : Stack) (handle attr p : ℕ) (s : Subscription) (c : IsConsistent s)
    (there : get_item_for_attribute handle attr s ≡ some p) where
  live :
      (item : MonitoredItem) × (find p s.heap ≡ some item)
      × (item.handle ≡ handle)
      × (item.attr ≡ attr)
  live = c.node_live handle attr p (sym (get_item-find2 handle attr s) ∙ there)

  abbrev rest : Subscription
  rest = without_item p live.0 s

  abbrev removed : Result Bool
  removed = record {
    returned = true;
    state = rest;
    signals =
        monitoring_enable_disable handle attr false
          (only_status (stack.delete_item s.m_subscription_id live.0.monitored_item_id))
        ∷ [];
  }

  removed_lem : remove_attribute_monitored_item stack handle attr s ≡ some removed
  unfolding remove_attribute_monitored_item
  removed_lem =
      rw (there, remove_attribute_monitored_item)
        (rw (live.1, remove_attribute_monitored_item) (rw (live.2, live.3) refl))

  monitored_rest :
      (h a : ℕ)
      → get_item_for_attribute h a rest
        ≡ (if handle == h && attr == a then none else get_item_for_attribute h a s)
  monitored_rest h a = ground (
    arith,
    live.2,
    live.3,
    get_item-find2 h a rest,
    get_item-find2 h a s,
    find2-remove2 live.0.handle live.0.attr h a s.m_node_handle_to_item_mapping,
  )

  values_rest :
      (id : ℕ) (value : Option DataValue)
      → monitored_value_updated id value rest
        ≡ (if live.0.monitored_item_id == id then some [] else monitored_value_updated id value s)
  values_rest id value = elim (Bool-cases (live.0.monitored_item_id == id)) [
    | inl same ↦
        rw (same, if◌then◌else◌)
          (value-unknown id value rest
            (ground (arith, find-remove live.0.monitored_item_id id s.m_item_id_to_item_mapping)))
    | inr other ↦
        rw (other, if◌then◌else◌)
          (value-same id value s rest c
            (ground (arith, find-remove live.0.monitored_item_id id s.m_item_id_to_item_mapping))
            (λ q x e f g. ground (
              arith,
              f,
              g,
              other,
              live.1,
              c.linked p live.0,
              c.linked q x,
              find-remove p q s.heap,
            )))
  ]

  -- In a consistent state, removing the item of a monitored attribute returns true, whatever the
  -- server answers; the state stays consistent, this attribute and no other is no longer monitored,
  -- and values for the id of the item are no longer signalled while those for every other id are
  -- signalled as before.
  pub remove_attribute_monitored_item-Removal :
      (r : Result Bool) × (remove_attribute_monitored_item stack handle attr s ≡ some r)
      × Removal handle attr s r
  remove_attribute_monitored_item-Removal = (
    removed,
    removed_lem,
    record {
      item = live.0;
      registered = (c.linked p live.0 live.1).1 ∙ sym there;
      carried_out = refl;
      consistent = without_item-IsConsistent p live.0 s c live.1;
      monitored = monitored_rest;
      values = values_rest;
    },
  )

-- What is promised of the removal of a subscription: no item is left, each of them was announced, and
-- with the status that tells a timeout from a disconnect.
pub record Cleared (s : Subscription) (r : Result Bool) : Type 0 where
  pub no_leak : (p : ℕ) → find p r.state.heap ≡ none
  pub consistent : IsConsistent r.state
  pub announced :
      (handle attr : ℕ)
      → (get_item_for_attribute handle attr s ≡ none) ⊎ (is_announced handle attr r.signals ≡ true)
  pub count : length r.signals ≡ monitored_items_count s
  pub status :
      (items : List MonitoredItem) × (r.signals
        ≡ disabled_signals (if s.m_timeout then bad_timeout else bad_disconnect) items)

module _ (stack : Stack) (s : Subscription) (c : IsConsistent s) where
  all_items : Collected s.m_item_id_to_item_mapping s.heap
  all_items =
      Collected-live s.m_item_id_to_item_mapping s.heap c.ids_unique
        (λ id p e. let live = c.id_live id p e in (live.0, live.1))

  emptied : (p : ℕ) → find p (delete_all s.m_item_id_to_item_mapping s.heap) ≡ none
  emptied p = elim (Option-cases (find p s.heap)) [
    | inl nothing ↦ delete_all-none p s.m_item_id_to_item_mapping s.heap nothing
    | inr thing ↦
        delete_all-entry thing.0.monitored_item_id p s.m_item_id_to_item_mapping s.heap
          (c.linked p thing.0 thing.1).1
  ]

  length-disabled :
      (status : ℕ) (items : List MonitoredItem)
      → length (disabled_signals status items) ≡ length items
  length-disabled status [] = refl
  length-disabled status (item ∷ items) = omega (arith, length-disabled status items)

  announced_all :
      (status handle attr p : ℕ)
      → get_item_for_attribute handle attr s ≡ some p
      → is_announced handle attr (disabled_signals status all_items.items) ≡ true
  announced_all status handle attr p e =
      let live = c.node_live handle attr p (sym (get_item-find2 handle attr s) ∙ e) in
      rw (← live.2, ← live.3)
        (disabled-among status live.0.handle live.0.attr all_items.items
          ∙ all_items.complete live.0.monitored_item_id p live.0 (c.linked p live.0 live.1).1
              live.1)

  nothing-IsConsistent : IsConsistent (without_items s)
  nothing-IsConsistent = record {
    linked = λ p item e. ground (arith, e, emptied p);
    node_live = λ handle attr p e.
        absurd (ground (arith, e, find2-missing {V = ℕ} handle attr [] (find-nil handle)));
    id_live = λ id p e. absurd (ground (arith, e, find-nil {V = ℕ} id));
    ids_unique = tt;
    nodes_unique = (tt, λ h. rw (find-nil {V = Map ℕ} h) tt);
    fresh = λ p h. emptied p;
  }

  -- In a consistent state, removing the subscription uses no pointer that dangles and leaves no
  -- item on the heap and a consistent state; it emits one signal for each item, which tells every
  -- monitored attribute that it is disabled, with BadTimeout after a timeout and BadDisconnect
  -- otherwise.
  pub remove_on_server-Cleared :
      (r : Result Bool) × (remove_on_server stack s ≡ some r) × Cleared s r
  unfolding remove_on_server monitored_items_count
  remove_on_server-Cleared =
      let status = if s.m_timeout then bad_timeout else bad_disconnect in
      let deleted =
        if s.m_subscription_id == 0 then good else stack.delete_subscription s.m_subscription_id in
      let r : Result Bool = record {
        returned = deleted == good;
        state = without_items s;
        signals = disabled_signals status all_items.items;
      } in
      (
        r,
        rw (all_items.found, remove_on_server) refl,
        record {
          no_leak = emptied;
          consistent = nothing-IsConsistent;
          announced = λ handle attr. elim (Option-cases (get_item_for_attribute handle attr s)) [
            | inl missing ↦ inl missing
            | inr found ↦ inr (announced_all status handle attr found.0 found.1)
          ];
          count = length-disabled status all_items.items ∙ all_items.count;
          status = (all_items.items, refl);
        },
      )
