-- ===== src/Monitoring/Stack.antt =====
-- What the subscriptions take from the open62541 stack and from Qt: the services of a server, as
-- functions from a request to the answer, and conversions. Each call of the model takes its own
-- answers, so that a server may answer differently every time.
use qtopcua.Prelude.{ℕ, Bool, List, Option}
use qtopcua.Qt.Text.{QString}
use qtopcua.Monitoring.Parameters.{Variant, MonitoringParameters}

pub record CreateSubscriptionRequest : Type 0 where
  pub requested_publishing_interval : ℕ
  pub requested_lifetime_count : ℕ
  pub requested_max_keep_alive_count : ℕ
  pub priority : ℕ
  pub max_notifications_per_publish : ℕ

pub record CreateSubscriptionResponse : Type 0 where
  pub service_result : ℕ
  pub subscription_id : ℕ
  pub revised_publishing_interval : ℕ
  pub revised_lifetime_count : ℕ
  pub revised_max_keep_alive_count : ℕ

pub record ModifySubscriptionRequest : Type 0 where
  pub subscription_id : ℕ
  pub requested_publishing_interval : ℕ
  pub requested_lifetime_count : ℕ
  pub requested_max_keep_alive_count : ℕ
  pub max_notifications_per_publish : ℕ
  pub priority : ℕ

pub record ModifySubscriptionResponse : Type 0 where
  pub service_result : ℕ
  pub revised_publishing_interval : ℕ
  pub revised_lifetime_count : ℕ
  pub revised_max_keep_alive_count : ℕ

pub record CreateItemRequest : Type 0 where
  pub node_id : ℕ
  pub attribute : ℕ
  pub index_range : QString
  pub monitoring_mode : ℕ
  pub sampling_interval : ℕ
  pub queue_size : ℕ
  pub discard_oldest : Bool
  pub client_handle : ℕ
  pub filter : Option Variant
  pub is_event : Bool

pub record CreateItemResult : Type 0 where
  pub status_code : ℕ
  pub monitored_item_id : ℕ
  pub revised_sampling_interval : ℕ
  pub revised_queue_size : ℕ
  -- `none` where it is no decoded EventFilterResult.
  pub event_filter_result : Option ℕ

pub record ModifyItemRequest : Type 0 where
  pub subscription_id : ℕ
  pub monitored_item_id : ℕ
  pub discard_oldest : Bool
  pub queue_size : ℕ
  pub sampling_interval : ℕ
  pub client_handle : ℕ
  pub filter : Option Variant

pub record ModifyItemResult : Type 0 where
  pub status_code : ℕ
  pub revised_sampling_interval : ℕ
  pub revised_queue_size : ℕ
  pub event_filter_result : Option ℕ

-- The service result, and the first result if there is one.
pub record ModifyItemResponse : Type 0 where
  pub service_result : ℕ
  pub first_result : Option ModifyItemResult

pub record ModeResponse : Type 0 where
  pub service_result : ℕ
  pub first_result : Option ℕ

pub record Stack : Type 0 where
  pub default_lifetime_count : ℕ
  pub default_max_keep_alive_count : ℕ
  pub create_subscription : CreateSubscriptionRequest → CreateSubscriptionResponse
  pub modify_subscription : ModifySubscriptionRequest → ModifySubscriptionResponse
  pub delete_subscription : ℕ → ℕ
  pub set_publishing_mode : ℕ → Bool → ModeResponse
  pub create_item : ℕ → CreateItemRequest → CreateItemResult
  pub modify_item : ModifyItemRequest → ModifyItemResponse
  pub delete_item : ℕ → ℕ → ℕ
  pub set_monitoring_mode : ℕ → ℕ → ℕ → ModeResponse
  -- qFuzzyCompare
  pub fuzzy_compare : ℕ → ℕ → Bool
  -- QVariant::toDouble and toUInt; `none` where `ok` is false.
  pub to_double : Variant → Option ℕ
  pub to_uint : Variant → Option ℕ

-- A UA_DataValue; numbers stand for the value and the timestamps.
pub record DataValue : Type 0 where
  pub value : ℕ
  pub server_timestamp : Option ℕ
  pub source_timestamp : Option ℕ

-- QOpcUaReadResult; the attribute and the value are those that were set.
pub record ReadResult : Type 0 where
  pub attribute : Option ℕ
  pub value : Option ℕ
  pub server_timestamp : Option ℕ
  pub source_timestamp : Option ℕ
  pub status_code : ℕ

-- The signals of the backend and of the subscription, with their arguments.
pub data Signal : Type 0 where
  monitoring_enable_disable :
      (handle attr : ℕ) (subscribe : Bool) (status : MonitoringParameters) → Signal
  monitoring_status_changed : (handle attr items : ℕ) (status : MonitoringParameters) → Signal
  data_change_occurred : (handle : ℕ) (value : ReadResult) → Signal
  event_occurred : (handle : ℕ) (fields : List ℕ) → Signal
  timeout : (items : List (ℕ × ℕ)) → Signal
