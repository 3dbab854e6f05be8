-- ===== src/Nodes/Mirror/Items.antt =====
-- What one signal about monitoring does to the status of an attribute.
use qtopcua.Prelude.{
  ℕ, ◌≡◌, refl, ◌∙◌, ap, true, false, Option, none, some, ◌==◌, find, find-insert, find-remove,
  Bool-cases, inl, inr, arith,
}
use qtopcua.Monitoring.Parameters.{
  Parameter, Variant, MonitoringParameters, invalid, boolean, uint, double, mode,
  data_change_filter, event_filter, event_filter_result, create_filter,
}
use qtopcua.Monitoring.Stack.{Stack, ModifyItemRequest, ModifyItemResult}
use qtopcua.Monitoring.Subscription.{MonitoredItem, Subscription, good}
use qtopcua.Monitoring.Modify.{refused, request}
use qtopcua.Monitoring.ModifyItem.{with_filter, item_request, modified_parameters, modified_flags}
use qtopcua.Nodes.Node.{
  Node, bad_entry_exists, enable_disable_handler, status_changed_handler, status_changed_map,
  merged, merged_filter,
}
use qtopcua.Nodes.Mirror.{Agree, own_parameters, mixed}

abbrev pub status_of : ℕ → Node → Option MonitoringParameters
status_of attr n = find attr n.m_monitoring_status

module _ (attr : ℕ) (status : MonitoringParameters) (n : Node) where
  pub Agree-disabled : Agree none (status_of attr (enable_disable_handler attr false status n).node)
  unfolding enable_disable_handler
  Agree-disabled = inl (ground (arith, find-remove attr attr n.m_monitoring_status))

  pub Agree-refused :
      (status.status_code == good) ≡ false
      → Agree none (status_of attr n)
      → Agree none (status_of attr (enable_disable_handler attr true status n).node)
  unfolding enable_disable_handler
  Agree-refused bad before = elim (Bool-cases (status.status_code == bad_entry_exists)) [
    | inl exists ↦ rw exists before
    | inr other ↦
        rw other
          (inr (status, ground (arith, find-insert attr attr status n.m_monitoring_status), bad))
  ]

  pub Agree-enabled :
      (p : MonitoringParameters)
      → own_parameters p ≡ own_parameters status
      → status.status_code ≡ good
      → Agree (some p) (status_of attr (enable_disable_handler attr true status n).node)
  unfolding enable_disable_handler
  Agree-enabled p same ok =
      let e : (status.status_code == bad_entry_exists) ≡ false = ground arith in
      rw e (status, ground (arith, find-insert attr attr status n.m_monitoring_status), same, ok)

  module _ (items : ℕ) where
    pub status_changed-find :
        (q : MonitoringParameters)
        → status_of attr n ≡ some q
        → status.status_code ≡ good
        → status_of attr (status_changed_handler attr items status n).node
          ≡ some (merged items status q)
    unfolding status_changed_handler status_changed_map
    status_changed-find q e ok =
        ground (arith, find-insert attr attr (merged items status q) n.m_monitoring_status)

    pub status_changed-bad :
        (status.status_code == good) ≡ false
        → status_of attr (status_changed_handler attr items status n).node ≡ status_of attr n
    unfolding status_changed_handler status_changed_map
    status_changed-bad bad = ground arith

-- A value that makes a filter is the filter that the node takes over.
filter-kept :
    (value old : Variant) (s : Subscription) (mon_item : MonitoredItem) (req : ModifyItemRequest)
    → item_request Parameter.filter value s mon_item ≡ request req
    → merged_filter old value ≡ value
unfolding item_request create_filter
filter-kept (data_change_filter f) old s mon_item req e = refl
filter-kept (event_filter f) old s mon_item req e = refl
filter-kept invalid old s mon_item req e = cc
filter-kept (boolean b) old s mon_item req e = cc
filter-kept (uint n) old s mon_item req e = cc
filter-kept (double d) old s mon_item req e = cc
filter-kept (mode m) old s mon_item req e = cc
filter-kept (event_filter_result r) old s mon_item req e = cc
filter-kept (Variant.other n) old s mon_item req e = cc

-- A request is refused with a status that is not Good.
with_filter-bad :
    (mon_item : MonitoredItem) (req : ModifyItemRequest) (status : ℕ)
    → with_filter mon_item req ≡ refused status
    → (status == good) ≡ false
with_filter-bad mon_item req status e = ground arith

pub item_request-bad :
    (item : Parameter) (value : Variant) (s : Subscription) (mon_item : MonitoredItem) (status : ℕ)
    → item_request item value s mon_item ≡ refused status
    → (status == good) ≡ false
unfolding item_request
item_request-bad Parameter.discard_oldest value s mon_item status e = ground arith
item_request-bad Parameter.queue_size value s mon_item status e = ground arith
item_request-bad Parameter.sampling_interval value s mon_item status e = ground arith
item_request-bad Parameter.filter value s mon_item status e = ground arith
item_request-bad Parameter.publishing_enabled value s mon_item status e = cc
item_request-bad Parameter.publishing_interval value s mon_item status e = cc
item_request-bad Parameter.lifetime_count value s mon_item status e = cc
item_request-bad Parameter.max_keep_alive_count value s mon_item status e = cc
item_request-bad Parameter.max_notifications_per_publish value s mon_item status e = cc
item_request-bad Parameter.priority value s mon_item status e = cc
item_request-bad Parameter.monitoring_mode value s mon_item status e = cc

-- The flags of a modification tell the node all that the item has changed.
module _ (stack : Stack) (value : Variant) (res : ModifyItemResult) (p : MonitoringParameters)
    (q : MonitoringParameters) where
  abbrev Tells : Parameter → Type 0
  Tells item =
      own_parameters (modified_parameters stack item value res p)
      ≡ own_parameters (
          merged (modified_flags stack item res p) (modified_parameters stack item value res p)
            (mixed p q))

  module _ (ok : p.status_code ≡ good) where
    Tells-discard_oldest : Tells Parameter.discard_oldest
    unfolding modified_parameters modified_flags merged
    Tells-discard_oldest = ground arith

    Tells-queue_size : Tells Parameter.queue_size
    unfolding modified_parameters modified_flags merged
    Tells-queue_size = ground arith

    Tells-sampling_interval : Tells Parameter.sampling_interval
    unfolding modified_parameters modified_flags merged
    Tells-sampling_interval = ground arith

    Tells-filter : merged_filter p.filter value ≡ value → Tells Parameter.filter
    unfolding modified_parameters modified_flags merged
    Tells-filter e = ground arith

    pub tells :
        (item : Parameter) (s : Subscription) (mon_item : MonitoredItem) (req : ModifyItemRequest)
        → item_request item value s mon_item ≡ request req
        → Tells item
    unfolding item_request
    tells Parameter.discard_oldest s mon_item req e = Tells-discard_oldest
    tells Parameter.queue_size s mon_item req e = Tells-queue_size
    tells Parameter.sampling_interval s mon_item req e = Tells-sampling_interval
    tells Parameter.filter s mon_item req e =
        Tells-filter (filter-kept value p.filter s mon_item req e)
    tells Parameter.publishing_enabled s mon_item req e = cc
    tells Parameter.publishing_interval s mon_item req e = cc
    tells Parameter.lifetime_count s mon_item req e = cc
    tells Parameter.max_keep_alive_count s mon_item req e = cc
    tells Parameter.max_notifications_per_publish s mon_item req e = cc
    tells Parameter.priority s mon_item req e = cc
    tells Parameter.monitoring_mode s mon_item req e = cc

-- The status of a modified item at the node, where the item had the parameters before.
pub Agree-modified :
    (stack : Stack) (value : Variant) (res : ModifyItemResult) (p : MonitoringParameters)
    (item : Parameter) (s : Subscription) (mon_item : MonitoredItem) (req : ModifyItemRequest)
    (attr : ℕ) (n : Node)
    → item_request item value s mon_item ≡ request req
    → Agree (some p) (status_of attr n)
    → let p' = modified_parameters stack item value res p in
      Agree
        (some p')
        (status_of attr (status_changed_handler attr (modified_flags stack item res p) p' n).node)
unfolding modified_parameters merged
Agree-modified stack value res p item s mon_item req attr n e h =
    let q : MonitoringParameters = h.0 in
    let p' : MonitoringParameters = modified_parameters stack item value res p in
    let flags : ℕ = modified_flags stack item res p in
    let ok : p.status_code ≡ good = ap (λ r. r.status_code) h.2 ∙ h.3 in
    let same : mixed p q ≡ q =
      let back : MonitoringParameters → MonitoringParameters = λ r. mixed r q in ap back h.2 in
    let told = tells stack value res p q ok item s mon_item req e in
    (
      merged flags p' q,
      status_changed-find attr p' n flags q h.1 refl,
      told ∙ ap (λ r. own_parameters (merged flags p' r)) same,
      h.3,
    )
