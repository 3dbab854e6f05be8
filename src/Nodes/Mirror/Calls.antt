-- ===== src/Nodes/Mirror/Calls.antt =====
-- The three calls of a subscription for one attribute, with the node that its signals reach.
use qtopcua.Prelude.{
  ℕ, ◌≡◌, refl, ◌∙◌, subst, Bool, true, false, [], ◌∷◌, Option, none, some, ◌==◌, find, remove,
  remove2, find-insert, find2-insert2, find2-remove2, Option-cases, Bool-cases, inl, inr, arith,
}
use qtopcua.Monitoring.Parameters.{
  Parameter, Variant, MonitoringParameters, only_status, is_valid, create_filter,
}
use qtopcua.Monitoring.Stack.{
  Stack, CreateItemResult, ModifyItemRequest, ModifyItemResult, monitoring_enable_disable,
  monitoring_status_changed,
}
use qtopcua.Monitoring.Subscription.{
  MonitoredItem, Subscription, Result, good, bad_internal_error, get_item_for_attribute,
}
use qtopcua.Monitoring.Items.{
  counted, with_item, new_item, item_created, item_parameters, add_attribute_monitored_item,
  remove_attribute_monitored_item,
}
use qtopcua.Monitoring.Modify.{Requested, no_match, refused, request}
use qtopcua.Monitoring.ModifyItem.{
  with_parameters, item_request, accepted_result, item_modified, modify_monitored_item_parameters,
}
use qtopcua.Monitoring.Consistent.{get_item-find2}
use qtopcua.Nodes.Node.{enable_disable_handler, status_changed_handler}
use qtopcua.Nodes.Handles.{ClientImpl}
use qtopcua.Nodes.Dispatch.{receive_all}
use qtopcua.Nodes.Mirror.{item_status, Agree, Mirrors, NodeAt-enable_disable, NodeAt-status_changed}
use qtopcua.Nodes.Mirror.Items.{
  status_of, Agree-disabled, Agree-refused, Agree-enabled, status_changed-bad, item_request-bad,
  Agree-modified,
}

-- The node gets the signals of a call.
abbrev pub after_call {ℓ} : {A : Type ℓ} → Result A → ClientImpl → ClientImpl
after_call r c = (receive_all r.signals c).client

module _ (handle attr : ℕ) (s : Subscription) where
  item_status-none : get_item_for_attribute handle attr s ≡ none → item_status handle attr s ≡ none
  unfolding item_status
  item_status-none e = rw (e, item_status) refl

  pub item_status-some :
      (p : ℕ) (item : MonitoredItem)
      → get_item_for_attribute handle attr s ≡ some p
      → find p s.heap ≡ some item
      → item_status handle attr s ≡ some item.parameters
  unfolding item_status
  item_status-some p item e f = rw (e, item_status) (rw (f, item_status) refl)

item_status-with_item :
    (handle attr : ℕ) (s : Subscription) (settings : MonitoringParameters) (res : CreateItemResult)
    → item_status handle attr (with_item handle attr settings res s)
      ≡ some (item_parameters s settings res)
item_status-with_item handle attr s settings res =
    let item = new_item handle attr settings res s in
    let t : Subscription = with_item handle attr settings res s in
    item_status-some handle attr t s.next_address item
      (get_item-find2 handle attr t
        ∙ ground (
          arith,
          find2-insert2 handle attr handle attr s.next_address s.m_node_handle_to_item_mapping,
        ))
      (ground (arith, find-insert s.next_address s.next_address item s.heap))

module _ (handle attr : ℕ) (s t : Subscription) (c : ClientImpl) (m : Mirrors handle attr s c) where
  signalled-Mirrors :
      (subscribe : Bool) (status : MonitoringParameters)
      → Agree
          (item_status handle attr t)
          (status_of attr (enable_disable_handler attr subscribe status m.obj.front).node)
      → Mirrors handle attr t
          (receive_all (monitoring_enable_disable handle attr subscribe status ∷ []) c).client
  signalled-Mirrors subscribe status a = record {
    obj = _;
    at_node = NodeAt-enable_disable handle m.obj c m.at_node attr subscribe status;
    agree = a;
  }

  changed-Mirrors :
      (items : ℕ) (status : MonitoringParameters)
      → Agree
          (item_status handle attr t)
          (status_of attr (status_changed_handler attr items status m.obj.front).node)
      → Mirrors handle attr t
          (receive_all (monitoring_status_changed handle attr items status ∷ []) c).client
  changed-Mirrors items status a = record {
    obj = _;
    at_node = NodeAt-status_changed handle m.obj c m.at_node attr items status;
    agree = a;
  }

module _ (handle attr : ℕ) (s : Subscription) (c : ClientImpl) (m : Mirrors handle attr s c) where
  -- A refusal of a new item.
  refused-Mirrors :
      (status : ℕ)
      → (status == good) ≡ false
      → get_item_for_attribute handle attr s ≡ none
      → Mirrors handle attr s
          (receive_all
            (monitoring_enable_disable handle attr true (only_status status) ∷ [])
            c).client
  refused-Mirrors status bad free =
      let gone = item_status-none handle attr s free in
      signalled-Mirrors handle attr s s c m true (only_status status)
        (rw gone (Agree-refused attr (only_status status) m.obj.front bad (rw gone at m.agree)))

  created-Mirrors :
      (settings : MonitoringParameters) (res : CreateItemResult)
      → get_item_for_attribute handle attr s ≡ none
      → let r = item_created handle attr settings res s in
        Mirrors handle attr r.state (after_call r c)
  created-Mirrors settings res free = elim (Bool-cases (res.status_code == good)) [
    | inl ok ↦ rw ok (
        signalled-Mirrors handle attr s (with_item handle attr settings res s) c m true _ (
          rw (item_status-with_item handle attr s settings res)
            (Agree-enabled attr _ m.obj.front (item_parameters s settings res) refl refl)))
    | inr bad ↦ rw bad (refused-Mirrors res.status_code bad free)
  ]

  pub unchanged-Mirrors :
      (items : ℕ) (status : MonitoringParameters)
      → (status.status_code == good) ≡ false
      → Mirrors handle attr s
          (receive_all (monitoring_status_changed handle attr items status ∷ []) c).client
  unchanged-Mirrors items status bad =
      changed-Mirrors handle attr s s c m items status
        (rw (status_changed-bad attr status m.obj.front items bad) m.agree)

module _ (stack : Stack) (handle attr : ℕ) (s : Subscription) (c : ClientImpl)
    (m : Mirrors handle attr s c) where
  counted-Mirrors : Mirrors handle attr (counted s) c
  unfolding item_status get_item_for_attribute
  counted-Mirrors = record { obj = m.obj; at_node = m.at_node; agree = m.agree }

  counted-free :
      get_item_for_attribute handle attr s ≡ none
      → get_item_for_attribute handle attr (counted s) ≡ none
  unfolding get_item_for_attribute
  counted-free free = free

  pub added-Mirrors :
      (node_id : ℕ) (settings : MonitoringParameters)
      → get_item_for_attribute handle attr s ≡ none
      → let r = add_attribute_monitored_item stack handle attr node_id settings s in
        Mirrors handle attr r.state (after_call r c)
  unfolding add_attribute_monitored_item
  added-Mirrors node_id settings free =
      let m' = counted-Mirrors in
      let free' = counted-free free in
      elim (Bool-cases (is_valid settings.filter)) [
        | inl valid ↦ elim (Option-cases (create_filter settings.filter)) [
          | inl bad ↦
              rw valid (
                rw bad (refused-Mirrors handle attr (counted s) c m' bad_internal_error refl free'))
          | inr f ↦
              rw valid (rw f.1 (created-Mirrors handle attr (counted s) c m' settings _ free'))
        ]
        | inr empty ↦ rw empty (created-Mirrors handle attr (counted s) c m' settings _ free')
      ]

  -- The node keeps up with a call, if the call has an outcome.
  abbrev pub KeepsUp : Option (Result Bool) → Type 0
  KeepsUp none = Unit
  KeepsUp (some r) = Mirrors handle attr r.state (after_call r c)

  pub KeepsUp-some :
      (o : Option (Result Bool)) (r : Result Bool)
      → KeepsUp o
      → o ≡ some r
      → Mirrors handle attr r.state (after_call r c)
  KeepsUp-some o r h e = subst KeepsUp e h

  pub KeepsUp-removed : KeepsUp (remove_attribute_monitored_item stack handle attr s)
  unfolding remove_attribute_monitored_item
  KeepsUp-removed = elim (Option-cases (get_item_for_attribute handle attr s)) [
    | inl missing ↦
        rw (missing, remove_attribute_monitored_item)
          (signalled-Mirrors handle attr s s c m false _
            (rw (item_status-none handle attr s missing) (Agree-disabled attr _ m.obj.front)))
    | inr found ↦ elim (Option-cases (find found.0 s.heap)) [
      | inl dangling ↦
          rw (found.1, remove_attribute_monitored_item)
            (rw (dangling, remove_attribute_monitored_item) tt)
      | inr there ↦
          let t : Subscription = record s {
            m_item_id_to_item_mapping =
                remove there.0.monitored_item_id s.m_item_id_to_item_mapping;
            m_node_handle_to_item_mapping = remove2 handle attr s.m_node_handle_to_item_mapping;
            heap = remove found.0 s.heap;
          } in
          let gone : get_item_for_attribute handle attr t ≡ none =
            get_item-find2 handle attr t
            ∙ ground
                (arith, find2-remove2 handle attr handle attr s.m_node_handle_to_item_mapping) in
          rw (found.1, remove_attribute_monitored_item)
            (rw (there.1, remove_attribute_monitored_item)
              (signalled-Mirrors handle attr s t c m false _
                (rw (item_status-none handle attr t gone) (Agree-disabled attr _ m.obj.front))))
    ]
  ]

  module _ (item : Parameter) (value : Variant) (address : ℕ) (mon_item : MonitoredItem)
      (found : get_item_for_attribute handle attr s ≡ some address)
      (there : find address s.heap ≡ some mon_item) where
    item_status-with_parameters :
        (p : MonitoringParameters)
        → item_status handle attr (with_parameters address mon_item p s) ≡ some p
    unfolding get_item_for_attribute
    item_status-with_parameters p =
        item_status-some handle attr (with_parameters address mon_item p s) address
          (record mon_item { parameters = p }) found
          (ground (arith, find-insert address address (record mon_item { parameters = p }) s.heap))

    KeepsUp-good :
        (req : ModifyItemRequest) (first : ModifyItemResult)
        → item_request item value s mon_item ≡ request req
        → KeepsUp (some (accepted_result stack handle attr item value address mon_item s first))
    unfolding accepted_result
    KeepsUp-good req first e = changed-Mirrors handle attr s _ c m _ _ (
        rw (item_status-with_parameters _) (
          Agree-modified stack value first mon_item.parameters item s mon_item req attr m.obj.front
            e (rw (item_status-some handle attr s address mon_item found there) at m.agree)))

    KeepsUp-item_modified :
        (q : Requested ModifyItemRequest)
        → item_request item value s mon_item ≡ q
        → KeepsUp (item_modified stack handle attr item value address mon_item s q)
    unfolding item_modified accepted_result receive_all
    KeepsUp-item_modified no_match e = record { obj = m.obj; at_node = m.at_node; agree = m.agree }
    KeepsUp-item_modified (refused status) e =
        unchanged-Mirrors handle attr s c m _ _ (item_request-bad item value s mon_item status e)
    KeepsUp-item_modified (request req) e =
        let res = stack.modify_item req in
        elim (Bool-cases (res.service_result == good)) [
          | inl ok ↦ elim (Option-cases res.first_result) [
            | inl empty ↦ rw ok (rw (empty, item_modified) tt)
            | inr first ↦ rw ok (
                rw (first.1, item_modified)
                  (elim (Bool-cases (first.0.status_code == good)) [
                    | inl fine ↦ rw fine (KeepsUp-good req first.0 e)
                    | inr bad ↦ rw bad (unchanged-Mirrors handle attr s c m _ _ bad)
                  ]))
          ]
          | inr bad ↦ rw bad (unchanged-Mirrors handle attr s c m _ _ bad)
        ]

  pub KeepsUp-modified :
      (item : Parameter) (value : Variant)
      → KeepsUp (modify_monitored_item_parameters stack handle attr item value s)
  unfolding modify_monitored_item_parameters
  KeepsUp-modified item value = elim (Option-cases (get_item_for_attribute handle attr s)) [
    | inl missing ↦ rw (missing, modify_monitored_item_parameters) tt
    | inr found ↦ elim (Option-cases (find found.0 s.heap)) [
      | inl dangling ↦
          rw (found.1, modify_monitored_item_parameters)
            (rw (dangling, modify_monitored_item_parameters) tt)
      | inr there ↦
          rw (found.1, modify_monitored_item_parameters)
            (rw (there.1, modify_monitored_item_parameters)
              (KeepsUp-item_modified item value found.0 there.0 found.1 there.1 _ refl))
    ]
  ]
