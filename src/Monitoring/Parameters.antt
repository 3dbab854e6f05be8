-- ===== src/Monitoring/Parameters.antt =====
-- QOpcUaMonitoringParameters with its enums and filters, and the QVariant values that set them.
-- double fields are bit patterns; an enumerator is its number.
use qtopcua.Prelude.{
  ℕ, ◌^◌, Bool, true, false, ◌&&◌, List, [], ◌∷◌, Option, none, some, if◌then◌else◌,
}
use qtopcua.Qt.Text.{QString}

-- QOpcUaMonitoringParameters::Parameter
pub data Parameter : Type 0 where
  publishing_enabled : Parameter
  publishing_interval : Parameter
  lifetime_count : Parameter
  max_keep_alive_count : Parameter
  max_notifications_per_publish : Parameter
  priority : Parameter
  sampling_interval : Parameter
  filter : Parameter
  queue_size : Parameter
  discard_oldest : Parameter
  monitoring_mode : Parameter

abbrev pub parameter_flag : Parameter → ℕ
parameter_flag publishing_enabled = 2 ^ 0
parameter_flag publishing_interval = 2 ^ 1
parameter_flag lifetime_count = 2 ^ 2
parameter_flag max_keep_alive_count = 2 ^ 3
parameter_flag max_notifications_per_publish = 2 ^ 4
parameter_flag priority = 2 ^ 5
parameter_flag sampling_interval = 2 ^ 6
parameter_flag filter = 2 ^ 7
parameter_flag queue_size = 2 ^ 8
parameter_flag discard_oldest = 2 ^ 9
parameter_flag monitoring_mode = 2 ^ 10

-- The operands that convertWhereClause tells apart; a number stands for an operand's content.
pub data Operand : Type 0 where
  element_operand : ℕ → Operand
  literal_operand : ℕ → Operand
  simple_attribute_operand : ℕ → Operand
  attribute_operand : ℕ → Operand
  unknown_operand : Operand

pub record FilterElement : Type 0 where
  pub filter_operator : ℕ
  pub filter_operands : List Operand

-- A number stands for the content of a select clause.
pub record EventFilter : Type 0 where
  pub select_clauses : List ℕ
  pub where_clause : List FilterElement

pub record DataChangeFilter : Type 0 where
  pub trigger : ℕ
  pub deadband_type : ℕ
  pub deadband_value : ℕ

-- A QVariant by the types that the code asks for.
pub data Variant : Type 0 where
  invalid : Variant
  boolean : Bool → Variant
  uint : ℕ → Variant
  double : ℕ → Variant
  mode : ℕ → Variant
  data_change_filter : DataChangeFilter → Variant
  event_filter : EventFilter → Variant
  event_filter_result : ℕ → Variant
  other : ℕ → Variant

abbrev pub is_valid : Variant → Bool
is_valid invalid = false
is_valid v = true

pub record MonitoringParameters : Type 0 where
  pub sampling_interval : ℕ
  pub filter : Variant
  pub filter_result : Variant
  pub queue_size : ℕ
  pub discard_oldest : Bool
  pub monitoring_mode : ℕ
  pub index_range : QString
  pub subscription_id : ℕ
  pub monitored_item_id : ℕ
  pub publishing_interval : ℕ
  pub lifetime_count : ℕ
  pub max_keep_alive_count : ℕ
  pub max_notifications_per_publish : ℕ
  pub priority : ℕ
  pub publishing_enabled : Bool
  pub status_code : ℕ
  pub shared : ℕ

abbrev pub reporting : ℕ
reporting = 2

abbrev pub shared_type : ℕ
shared_type = 0

abbrev pub bad_no_entry_exists : ℕ
bad_no_entry_exists = 0x80A00000

abbrev pub default_parameters : MonitoringParameters
default_parameters = record {
  sampling_interval = 0;
  filter = invalid;
  filter_result = invalid;
  queue_size = 0;
  discard_oldest = true;
  monitoring_mode = reporting;
  index_range = none;
  subscription_id = 0;
  monitored_item_id = 0;
  publishing_interval = 0;
  lifetime_count = 150;
  max_keep_alive_count = 50;
  max_notifications_per_publish = 0;
  priority = 0;
  publishing_enabled = true;
  status_code = bad_no_entry_exists;
  shared = shared_type;
}

-- Default parameters of which only the status code was set.
abbrev pub only_status : ℕ → MonitoringParameters
only_status status = record default_parameters { status_code = status }

-- Whether convertWhereClause knows the operands.
abbrev known_operands : List Operand → Bool
known_operands [] = true
known_operands (unknown_operand ∷ operands) = false
known_operands (operand ∷ operands) = known_operands operands

abbrev pub convert_where_clause : List FilterElement → Bool
convert_where_clause [] = true
convert_where_clause (e ∷ elements) =
    known_operands e.filter_operands && convert_where_clause elements

-- The filter that a request gets; none where `content.decoded.data` is null.
unfoldable pub create_filter : Variant → Option Variant
create_filter (data_change_filter f) = some (data_change_filter f)
create_filter (event_filter f) =
    if convert_where_clause f.where_clause then some (event_filter f) else none
create_filter v = none
