-- ===== src/Monitoring/Delivery.antt =====
-- Whom monitoredValueUpdated tells of a value.
use qtopcua.Prelude.{
  ℕ, ◌≡◌, refl, sym, ◌∙◌, List, [], ◌∷◌, Option, none, some, Option-cases, inl, inr, find,
}
use qtopcua.Monitoring.Stack.{DataValue, Signal, data_change_occurred}
use qtopcua.Monitoring.Subscription.{MonitoredItem, Subscription}
use qtopcua.Monitoring.Notify.{notify, read_result, monitored_value_updated}
use qtopcua.Monitoring.Consistent.{IsConsistent}

module _ (id : ℕ) (value : Option DataValue) (s : Subscription) where
  pub value-unknown :
      find id s.m_item_id_to_item_mapping ≡ none → monitored_value_updated id value s ≡ some []
  unfolding monitored_value_updated
  value-unknown e = rw (e, monitored_value_updated, notify) refl

  pub value-item :
      (p : ℕ) (item : MonitoredItem)
      → find id s.m_item_id_to_item_mapping ≡ some p
      → find p s.heap ≡ some item
      → monitored_value_updated id value s
        ≡ some (data_change_occurred item.handle (read_result item.attr value) ∷ [])
  unfolding monitored_value_updated
  value-item p item e f =
      rw (e, monitored_value_updated, notify) (rw (f, monitored_value_updated, notify) refl)

-- Two states that agree on an id and on its object tell the same.
pub value-same :
    (id : ℕ) (value : Option DataValue) (s t : Subscription)
    → IsConsistent s
    → find id t.m_item_id_to_item_mapping ≡ find id s.m_item_id_to_item_mapping
    → ((p : ℕ) (item : MonitoredItem)
        → find id s.m_item_id_to_item_mapping ≡ some p
        → find p s.heap ≡ some item
        → item.monitored_item_id ≡ id
        → find p t.heap ≡ some item)
    → monitored_value_updated id value t ≡ monitored_value_updated id value s
value-same id value s t c ids objects = elim (Option-cases (find id s.m_item_id_to_item_mapping)) [
  | inl unknown ↦ value-unknown id value t (ids ∙ unknown) ∙ sym (value-unknown id value s unknown)
  | inr known ↦
      let live = c.id_live id known.0 known.1 in
      value-item id value t known.0 live.0 (ids ∙ known.1)
        (objects known.0 live.0 known.1 live.1 live.2)
      ∙ sym (value-item id value s known.0 live.0 known.1 live.1)
]

-- Every id has its signals, none of them for an id that is not known.
module _ (id : ℕ) (s : Subscription) (c : IsConsistent s) where
  pub notify-defined :
      (signal : MonitoredItem → Signal)
      → (signals : List Signal) × (notify signal id s ≡ some signals)
  notify-defined signal = elim (Option-cases (find id s.m_item_id_to_item_mapping)) [
    | inl unknown ↦ ([], rw (unknown, notify) refl)
    | inr known ↦
        let live = c.id_live id known.0 known.1 in
        (signal live.0 ∷ [], rw (known.1, notify) (rw (live.1, notify) refl))
  ]
