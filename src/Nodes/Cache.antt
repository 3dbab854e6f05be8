-- ===== src/Nodes/Cache.antt =====
-- What the caches of a node hold after a signal.
use qtopcua.Prelude.{
  ℕ, ◌≡◌, refl, List, [], ◌∷◌, Option, none, some, ◌==◌, if◌then◌else◌, Map, find, insert,
  find-insert, arith,
}
use qtopcua.Monitoring.Stack.{ReadResult}
use qtopcua.Monitoring.Subscription.{good}
use qtopcua.Nodes.Node.{
  Node, attribute_of, stored_result, store_results, attributes_read, attribute, attribute_error,
}

-- The last result for an attribute.
abbrev pub last_result : ℕ → List ReadResult → Option ReadResult
last_result attr [] = none
last_result attr (r ∷ results) = elim (last_result attr results) [
  | some later ↦ some later
  | none ↦ if attribute_of r == attr then some r else none
]

store_results-last :
    (attr service_result : ℕ) (results : List ReadResult) (m : Map ReadResult)
    → find attr (store_results service_result results m) ≡ elim (last_result attr results) [
      | none ↦ find attr m
      | some r ↦ some (stored_result service_result r)
    ]
unfolding store_results
store_results-last attr service_result [] m = refl
store_results-last attr service_result (r ∷ results) m = ground (
  arith,
  store_results-last attr service_result results
      (insert (attribute_of r) (stored_result service_result r) m),
  find-insert (attribute_of r) attr (stored_result service_result r) m,
)

-- The value and the error of an attribute that a read leaves, from those before and the last result
-- for the attribute.
abbrev pub value_after : ℕ → Option ℕ → Option ReadResult → Option ℕ
value_after service_result before none = before
value_after service_result before (some r) = if service_result == good then r.value else none

abbrev pub error_after : ℕ → ℕ → Option ReadResult → ℕ
error_after service_result before none = before
error_after service_result before (some r) =
    if service_result == good then r.status_code else service_result

-- The value and the error of an attribute after a read, by the last result for it.
pub attributes_read-attribute :
    (attr service_result : ℕ) (results : List ReadResult) (n : Node)
    → let after = (attributes_read results service_result n).node in
      let last = last_result attr results in
      (attribute attr after ≡ value_after service_result (attribute attr n) last)
      × (attribute_error attr after ≡ error_after service_result (attribute_error attr n) last)
unfolding attributes_read attribute attribute_error stored_result
attributes_read-attribute attr service_result results n = (
  ground (arith, store_results-last attr service_result results n.m_node_attributes),
  ground (arith, store_results-last attr service_result results n.m_node_attributes),
)
