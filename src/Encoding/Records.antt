-- ===== src/Encoding/Records.antt =====
-- The value classes that the encoding transfers (qopcua*.cpp of the client library), field by
-- field. double and float fields are bit patterns, enumerations the numbers that are transferred.
use qtopcua.Prelude.{ℕ, List, ℤ}
use qtopcua.Qt.Text.{QString, QByteArray}

pub record QualifiedName : Type 0 where
  pub namespace_index : ℕ
  pub name : QString

pub record LocalizedText : Type 0 where
  pub locale : QString
  pub text : QString

pub record EuInformation : Type 0 where
  pub namespace_uri : QString
  pub unit_id : ℤ
  pub display_name : LocalizedText
  pub description : LocalizedText

pub record Range : Type 0 where
  pub low : ℕ
  pub high : ℕ

-- QOpcUaComplexNumber, and QOpcUaDoubleComplexNumber with wider fields.
pub record ComplexNumber : Type 0 where
  pub real : ℕ
  pub imaginary : ℕ

pub record AxisInformation : Type 0 where
  pub engineering_units : EuInformation
  pub eu_range : Range
  pub title : LocalizedText
  pub axis_scale_type : ℕ
  pub axis_steps : List ℕ

pub record XValue : Type 0 where
  pub x : ℕ
  pub value : ℕ

pub record ExpandedNodeId : Type 0 where
  pub server_index : ℕ
  pub namespace_uri : QString
  pub node_id : QString

-- The enum QOpcUaExtensionObject::Encoding.
pub data BodyEncoding : Type 0 where
  no_body byte_string xml : BodyEncoding

pub record ExtensionObject : Type 0 where
  pub encoding_type_id : QString
  pub encoded_body : QByteArray
  pub encoding : BodyEncoding

pub record Argument : Type 0 where
  pub name : QString
  pub data_type_id : QString
  pub value_rank : ℤ
  pub array_dimensions : List ℕ
  pub description : LocalizedText

pub record ApplicationRecord : Type 0 where
  pub application_id : QString
  pub application_uri : QString
  pub application_type : ℕ
  pub application_names : List LocalizedText
  pub product_uri : QString
  pub discovery_urls : List QString
  pub server_capability_identifiers : List QString
