-- ===== src/Monitoring/Subscription.antt =====
-- QOpen62541Subscription (plugins/opcua/open62541/qopen62541subscription.cpp): creation, the
-- monitored items, and what the server notifies. Monitored items are objects on a heap that two
-- hashes point to.
use qtopcua.Prelude.{
  ℕ, ◌^◌, Bool, false, List, [], ◌∷◌, Option, none, some, ◌==◌, if◌then◌else◌, Map, find, remove,
}
use qtopcua.Monitoring.Parameters.{MonitoringParameters, only_status}
use qtopcua.Monitoring.Stack.{Stack, CreateSubscriptionRequest, Signal, monitoring_enable_disable}

pub record MonitoredItem : Type 0 where
  pub handle : ℕ
  pub attr : ℕ
  pub monitored_item_id : ℕ
  pub client_handle : ℕ
  pub parameters : MonitoringParameters

-- `heap` has the objects at their addresses; `next_address` is the one of the next object.
pub record Subscription : Type 0 where
  pub m_interval : ℕ
  pub m_subscription_id : ℕ
  pub m_lifetime_count : ℕ
  pub m_max_keepalive_count : ℕ
  pub m_shared : ℕ
  pub m_priority : ℕ
  pub m_max_notifications_per_publish : ℕ
  pub m_node_handle_to_item_mapping : Map (Map ℕ)
  pub m_item_id_to_item_mapping : Map ℕ
  pub m_client_handle : ℕ
  pub m_timeout : Bool
  pub heap : Map MonitoredItem
  pub next_address : ℕ

-- What a call returns, the state after it and its signals in their order.
pub record Result {ℓ} (A : Type ℓ) : Type ℓ where
  pub returned : A
  pub state : Subscription
  pub signals : List Signal

abbrev pub good : ℕ
good = 0

abbrev pub bad_internal_error : ℕ
bad_internal_error = 0x80020000

abbrev pub bad_timeout : ℕ
bad_timeout = 0x800A0000

abbrev pub bad_monitored_item_id_invalid : ℕ
bad_monitored_item_id_invalid = 0x80420000

abbrev pub bad_disconnect : ℕ
bad_disconnect = 0x80AD0000

abbrev pub event_notifier : ℕ
event_notifier = 2 ^ 11

-- The constructor.
unfoldable pub new_subscription : Stack → MonitoringParameters → Subscription
new_subscription stack settings = record {
  m_interval = settings.publishing_interval;
  m_subscription_id = 0;
  m_lifetime_count =
      if settings.lifetime_count == 0
      then stack.default_lifetime_count
      else settings.lifetime_count;
  m_max_keepalive_count =
      if settings.max_keep_alive_count == 0
      then stack.default_max_keep_alive_count
      else settings.max_keep_alive_count;
  m_shared = settings.shared;
  m_priority = settings.priority;
  m_max_notifications_per_publish = settings.max_notifications_per_publish;
  m_node_handle_to_item_mapping = [];
  m_item_id_to_item_mapping = [];
  m_client_handle = 0;
  m_timeout = false;
  heap = [];
  next_address = 0;
}

abbrev pub create_subscription_request : Subscription → CreateSubscriptionRequest
create_subscription_request s = record {
  requested_publishing_interval = s.m_interval;
  requested_lifetime_count = s.m_lifetime_count;
  requested_max_keep_alive_count = s.m_max_keepalive_count;
  priority = s.m_priority;
  max_notifications_per_publish = s.m_max_notifications_per_publish;
}

unfoldable pub create_on_server : Stack → Subscription → Result ℕ
create_on_server stack s =
    let res = stack.create_subscription (create_subscription_request s) in
    if res.service_result == good
    then record {
      returned = res.subscription_id;
      state = record s {
        m_subscription_id = res.subscription_id;
        m_max_keepalive_count = res.revised_max_keep_alive_count;
        m_lifetime_count = res.revised_lifetime_count;
        m_interval = res.revised_publishing_interval;
      };
      signals = [];
    }
    else record { returned = 0; state = s; signals = [] }

-- The objects that the entries of a hash point to; none if a pointer dangles.
unfoldable pub objects : Map ℕ → Map MonitoredItem → Option (List MonitoredItem)
objects [] heap = some []
objects ((key, p) ∷ entries) heap = elim (find p heap) [
  | none ↦ none
  | some item ↦ elim (objects entries heap) [ none ↦ none | some items ↦ some (item ∷ items) ]
]

-- qDeleteAll
unfoldable pub delete_all : Map ℕ → Map MonitoredItem → Map MonitoredItem
delete_all [] heap = heap
delete_all ((key, p) ∷ entries) heap = delete_all entries (remove p heap)

abbrev pub disabled_signals : ℕ → List MonitoredItem → List Signal
disabled_signals status [] = []
disabled_signals status (item ∷ items) =
    monitoring_enable_disable item.handle item.attr false (only_status status)
    ∷ disabled_signals status items

abbrev pub without_items : Subscription → Subscription
without_items s = record s {
  m_subscription_id = 0;
  m_item_id_to_item_mapping = [];
  m_node_handle_to_item_mapping = [];
  heap = delete_all s.m_item_id_to_item_mapping s.heap;
}

-- none where a pointer that dangles is used.
unfoldable pub remove_on_server : Stack → Subscription → Option (Result Bool)
remove_on_server stack s =
    let res =
      if s.m_subscription_id == 0 then good else stack.delete_subscription s.m_subscription_id in
    elim (objects s.m_item_id_to_item_mapping s.heap) [
      | none ↦ none
      | some items ↦ some (record {
        returned = res == good;
        state = without_items s;
        signals = disabled_signals (if s.m_timeout then bad_timeout else bad_disconnect) items;
      })
    ]

unfoldable pub get_item_for_attribute : ℕ → ℕ → Subscription → Option ℕ
get_item_for_attribute handle attr s = elim (find handle s.m_node_handle_to_item_mapping) [
  | none ↦ none
  | some entry ↦ find attr entry
]
