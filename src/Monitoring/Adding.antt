-- ===== src/Monitoring/Adding.antt =====
-- What addAttributeMonitoredItem does to a subscription, and to whom it sends values after it.
use qtopcua.Prelude.{
  ℕ, ◌≡◌, refl, sym, ap, ◌∙◌, subst, Bool, true, false, [], ◌∷◌, Option, none, some, arith,
  if◌then◌else◌, ◌==◌, Bool-cases, Option-cases, inl, inr, find, find-insert,
}
use qtopcua.Monitoring.Parameters.{Variant, is_valid, MonitoringParameters, create_filter}
use qtopcua.Monitoring.Stack.{Stack, CreateItemRequest, DataValue, data_change_occurred}
use qtopcua.Monitoring.Subscription.{Subscription, Result, good, get_item_for_attribute}
use qtopcua.Monitoring.Items.{
  new_item, with_item, counted, create_item_request, request_item, add_attribute_monitored_item,
}
use qtopcua.Monitoring.Notify.{read_result, monitored_value_updated}
use qtopcua.Monitoring.Delivery.{value-item, value-same}
use qtopcua.Monitoring.Consistent.{IsConsistent, IsConsistent-members, get_item-find2}
use qtopcua.Monitoring.Linking.{with_item-IsConsistent}

-- The two ends of a call: nothing but the client handle has changed, or an object was added for
-- what the server answered to some request.
pub data Added (stack : Stack) (handle attr : ℕ) (settings : MonitoringParameters)
    (s : Subscription) (r : Result Bool) : Type 0 where
  rejected : r.returned ≡ false → r.state ≡ counted s → Added stack handle attr settings s r
  created :
      (req : CreateItemRequest)
      → r.returned ≡ true
      → r.state
        ≡ with_item handle attr settings (stack.create_item s.m_subscription_id req) (counted s)
      → Added stack handle attr settings s r

module _ (stack : Stack) (handle attr node_id : ℕ) (settings : MonitoringParameters)
    (s : Subscription) where
  request_item-Added :
      (filter : Option Variant)
      → Added stack handle attr settings s
          (request_item stack handle attr node_id settings filter (counted s))
  unfolding request_item
  request_item-Added filter =
      let req = create_item_request stack (counted s) attr node_id settings filter in
      let res = stack.create_item s.m_subscription_id req in
      elim (Bool-cases (res.status_code == good)) [
        | inl ok ↦ created req (rw ok refl) (rw ok refl)
        | inr bad ↦ rejected (rw bad refl) (rw bad refl)
      ]

  pub add-Added :
      Added stack handle attr settings s
        (add_attribute_monitored_item stack handle attr node_id settings s)
  unfolding add_attribute_monitored_item
  add-Added = elim (Bool-cases (is_valid settings.filter)) [
    | inl valid ↦ elim (Option-cases (create_filter settings.filter)) [
      | inl no_filter ↦
          rejected (rw (valid, no_filter, add_attribute_monitored_item) refl)
            (rw (valid, no_filter, add_attribute_monitored_item) refl)
      | inr f ↦ rw (valid, f.1, add_attribute_monitored_item) (request_item-Added (some f.0))
    ]
    | inr invalid_filter ↦ rw invalid_filter (request_item-Added none)
  ]

-- The server's item ids are new: no item of the subscription has one of them.
abbrev pub HasFreshIds : Stack → Subscription → Type 0
HasFreshIds stack s =
    (req : CreateItemRequest)
    → find (stack.create_item s.m_subscription_id req).monitored_item_id s.m_item_id_to_item_mapping
      ≡ none

module _ (stack : Stack) (handle attr node_id : ℕ) (settings : MonitoringParameters)
    (s : Subscription) (c : IsConsistent s) (new : get_item_for_attribute handle attr s ≡ none)
    (ids : HasFreshIds stack s) where
  abbrev added : Result Bool
  added = add_attribute_monitored_item stack handle attr node_id settings s

  -- Adding an item for an attribute that has none keeps a subscription consistent.
  pub add_attribute_monitored_item-IsConsistent :
      IsConsistent (add_attribute_monitored_item stack handle attr node_id settings s).state
  add_attribute_monitored_item-IsConsistent =
      elim (add-Added stack handle attr node_id settings s) [
        | rejected returned e ↦ subst IsConsistent (sym e) (IsConsistent-members s c)
        | created req returned e ↦ subst IsConsistent (sym e) (
            with_item-IsConsistent handle attr settings (stack.create_item s.m_subscription_id req)
              (counted s) (IsConsistent-members s c) (sym (get_item-find2 handle attr s) ∙ new)
              (ids req))
      ]

  value_after :
      (req : CreateItemRequest) (id : ℕ) (value : Option DataValue)
      → monitored_value_updated id value
          (with_item handle attr settings (stack.create_item s.m_subscription_id req) (counted s))
        ≡ (if (stack.create_item s.m_subscription_id req).monitored_item_id == id
            then some (data_change_occurred handle (read_result attr value) ∷ [])
            else monitored_value_updated id value s)
  value_after req id value =
      let res = stack.create_item s.m_subscription_id req in
      let after = with_item handle attr settings res (counted s) in
      let item = new_item handle attr settings res (counted s) in
      elim (Bool-cases (res.monitored_item_id == id)) [
        | inl same ↦
            rw (same, if◌then◌else◌)
              (value-item id value after s.next_address item
                (ground (
                  arith,
                  find-insert res.monitored_item_id id s.next_address s.m_item_id_to_item_mapping,
                ))
                (ground (arith, find-insert s.next_address s.next_address item s.heap)))
        | inr old ↦
            rw (old, if◌then◌else◌)
              (value-same id value s after c
                (ground (
                  arith,
                  find-insert res.monitored_item_id id s.next_address s.m_item_id_to_item_mapping,
                ))
                (λ p x e f g.
                  ground (arith, f, c.fresh p, find-insert s.next_address p item s.heap)))
      ]

  -- After adding a monitored item has returned true, values for the id that the server gave are
  -- signalled to the handle, for the attribute, and those for every other id are signalled as
  -- before. The state was consistent, the attribute not monitored, and the ids that the server
  -- gives not in use.
  pub add_attribute_monitored_item-values :
      (add_attribute_monitored_item stack handle attr node_id settings s).returned ≡ true
      → (req : CreateItemRequest) × ((id : ℕ) (value : Option DataValue)
          → monitored_value_updated id value
              (add_attribute_monitored_item stack handle attr node_id settings s).state
            ≡ (if (stack.create_item s.m_subscription_id req).monitored_item_id == id
                then some (data_change_occurred handle (read_result attr value) ∷ [])
                else monitored_value_updated id value s))
  add_attribute_monitored_item-values ok = elim (add-Added stack handle attr node_id settings s) [
    | rejected returned e ↦ absurd (ground (arith, ok, returned))
    | created req returned e ↦
        (req, λ id value. ap (monitored_value_updated id value) e ∙ value_after req id value)
  ]
