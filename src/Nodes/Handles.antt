-- ===== src/Nodes/Handles.antt =====
-- The handles of QOpcUaClientImpl (opcua/client/qopcuaclientimpl.cpp). A hash has the address of
-- the node implementation of each handle; a QPointer is null when no object has its address.
use qtopcua.Prelude.{
  ℕ, zero, suc, ◌+◌, ◌-◌, ◌%◌, ◌^◌, Bool, true, false, Option, none, some, length, ◌==◌,
  if◌then◌else◌, Map, find, insert, remove,
}
use qtopcua.Nodes.Node.{Node}

-- A QOpcUaNodeImpl, with the caches of the node that owns it.
pub record NodeImpl : Type 0 where
  pub m_handle : ℕ
  pub front : Node

-- `objects` has the node implementations that exist.
pub record ClientImpl : Type 0 where
  pub m_handles : Map ℕ
  pub m_handle_counter : ℕ
  pub objects : Map NodeImpl

abbrev pub next_handle : ℕ → ℕ
next_handle counter = (counter + 1) % 2 ^ 64

-- The loop of registerNode; none if the fuel does not reach a handle that is free.
unfoldable pub free_handle : ℕ → ℕ → Map ℕ → Option ℕ
free_handle zero counter handles = none
free_handle (suc fuel) counter handles = elim (find (next_handle counter) handles) [
  | none ↦ some (next_handle counter)
  | some p ↦ free_handle fuel (next_handle counter) handles
]

-- The implementation at an address gets a handle.
abbrev pub with_handle : ℕ → ℕ → NodeImpl → ClientImpl → ClientImpl
with_handle h p obj c = record c {
  m_handles = insert h p c.m_handles;
  m_handle_counter = h;
  objects = insert p (record obj { m_handle = h }) c.objects;
}

-- registerNode for the object at an address. The fuel is one more than the number of handles. none
-- where the pointer is null or where no handle is found.
unfoldable pub register_node : ℕ → ClientImpl → Option (Bool × ClientImpl)
register_node p c =
    if length c.m_handles == 2 ^ 31 - 1 then some (false, c) else (elim (find p c.objects) [
      | none ↦ none
      | some obj ↦ elim (free_handle (suc (length c.m_handles)) c.m_handle_counter c.m_handles) [
        | none ↦ none
        | some h ↦ some (true, with_handle h p obj c)
      ]
    ])

unfoldable pub unregister_node : ℕ → ClientImpl → Option ClientImpl
unregister_node p c = elim (find p c.objects) [
  | none ↦ none
  | some obj ↦ some (record c { m_handles = remove obj.m_handle c.m_handles })
]
