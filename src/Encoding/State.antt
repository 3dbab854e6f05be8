-- ===== src/Encoding/State.antt =====
-- The state of a QOpcUaBinaryDataEncoding: the buffer that it was given and the read offset.
-- Offsets and sizes are those of buffers for which their sum is an int; offsets are not negative.
use qtopcua.Prelude.{ℕ, ◌+◌, Bool, false, Option, none, some, ltb, leb, if◌then◌else◌, length, take}
use qtopcua.Qt.Text.{Bytes}

-- `m_data` is none for the null pointer.
pub record Codec : Type 0 where
  pub m_data : Option Bytes
  pub m_offset : ℕ

abbrev pub codec : Bytes → ℕ → Codec
codec buffer offset = record { m_data = some buffer; m_offset = offset }

-- The constructor from a buffer that is not null.
abbrev pub of_buffer : Bytes → Codec
of_buffer buffer = codec buffer 0

-- `(m_data->size() + m_offset) >= requiredSize`
unfoldable pub enough_data : ℕ → Codec → Bool
enough_data required c = elim c.m_data [
  | none ↦ false
  | some buffer ↦ leb required (length buffer + c.m_offset)
]

pub offset : Codec → ℕ
offset c = c.m_offset

unfoldable pub set_offset : ℕ → Codec → Codec
set_offset offset c = record c { m_offset = offset }

-- `m_data->size() - 1` is negative for an empty buffer, and no offset lies below it.
unfoldable pub truncate_buffer_to_offset : Codec → Codec
truncate_buffer_to_offset c = elim c.m_data [
  | none ↦ c
  | some buffer ↦
      if ltb (c.m_offset + 1) (length buffer)
      then record c { m_data = some (take (c.m_offset + 1) buffer) }
      else c
]
