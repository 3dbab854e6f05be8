-- ===== src/Nodes/Observer.antt =====
-- An application that keeps the value of each attributeUpdated signal of a node, beside the cache.
use Prim.Native.Nat.{bit_or}
use qtopcua.Prelude.{
  ℕ, ◌≡◌, ◌⊎◌, Bool, true, false, List, [], ◌∷◌, Option, none, some, ◌==◌, Map, find, insert,
  find-insert, find-nil, All, Bool-cases, inl, inr, arith,
}
use qtopcua.Monitoring.Parameters.{MonitoringParameters}
use qtopcua.Monitoring.Stack.{ReadResult}
use qtopcua.Monitoring.Subscription.{good}
use qtopcua.Nodes.Node.{
  Node, NodeSignal, Handled, attribute_updated, entry_of, attribute_of, stored_result,
  store_results, updated_signals, attributes_read, attribute_written_handler, data_change_handler,
  enable_disable_handler, status_changed_handler, attribute,
}

-- The signals of the implementation that touch the caches, with their arguments.
pub data NodeEvent : Type 0 where
  read : (results : List ReadResult) (service_result : ℕ) → NodeEvent
  written : (attr : ℕ) (value : Option ℕ) (status : ℕ) → NodeEvent
  changed : (attr : ℕ) (value : ReadResult) → NodeEvent
  monitored : (attr : ℕ) (subscribe : Bool) (status : MonitoringParameters) → NodeEvent
  status_changed : (attr items : ℕ) (param : MonitoringParameters) → NodeEvent

unfoldable pub handle_event : NodeEvent → Node → Handled
handle_event (read results service_result) n = attributes_read results service_result n
handle_event (written attr value status) n = attribute_written_handler attr value status n
handle_event (changed attr value) n = data_change_handler attr value n
handle_event (monitored attr subscribe status) n = enable_disable_handler attr subscribe status n
handle_event (status_changed attr items param) n = status_changed_handler attr items param n

-- What an observer has after signals.
unfoldable pub observe : List NodeSignal → Map (Option ℕ) → Map (Option ℕ)
observe [] seen = seen
observe (attribute_updated attr value ∷ signals) seen = observe signals (insert attr value seen)
observe (signal ∷ signals) seen = observe signals seen

abbrev pub value_or_null : Option (Option ℕ) → Option ℕ
value_or_null none = none
value_or_null (some value) = value

-- The observer's value of every attribute is that of the cache.
abbrev pub IsObserved : Map (Option ℕ) → Node → Type 0
IsObserved seen n = (attr : ℕ) → value_or_null (find attr seen) ≡ attribute attr n

-- A read that failed has results without values.
abbrev pub IsPlain : NodeEvent → Type 0
IsPlain (read results service_result) = (service_result ≡ good) ⊎ All (λ r. r.value ≡ none) results
IsPlain event = Unit

-- The node and the observer after events.
unfoldable pub run_events : List NodeEvent → Node → Map (Option ℕ) → Node × Map (Option ℕ)
run_events [] n seen = (n, seen)
run_events (event ∷ events) n seen =
    let h = handle_event event n in run_events events h.node (observe h.signals seen)

abbrev stored : Map ReadResult → ℕ → Option ℕ
stored m attr = elim (find attr m) [ none ↦ none | some r ↦ r.value ]

stored_result-value :
    (service_result : ℕ) (r : ReadResult)
    → (service_result ≡ good) ⊎ (r.value ≡ none)
    → (stored_result service_result r).value ≡ r.value
unfolding stored_result
stored_result-value service_result r h = ground arith

-- The values that a failed or a successful read signals are those that it stores.
IsSignalled : ℕ → ReadResult → Type 0
IsSignalled service_result r = (stored_result service_result r).value ≡ r.value

IsSignalled-All :
    (service_result : ℕ) (results : List ReadResult)
    → (service_result ≡ good) ⊎ All (λ r. r.value ≡ none) results
    → All (IsSignalled service_result) results
unfolding IsSignalled
IsSignalled-All service_result [] h = tt
IsSignalled-All service_result (r ∷ results) (inl h) =
    (stored_result-value service_result r (inl h), IsSignalled-All service_result results (inl h))
IsSignalled-All service_result (r ∷ results) (inr h) = (
  stored_result-value service_result r (inr h.0),
  IsSignalled-All service_result results (inr h.1),
)

store_results-observed :
    (service_result : ℕ) (results : List ReadResult) (updated : ℕ) (m : Map ReadResult)
    (seen : Map (Option ℕ))
    → All (IsSignalled service_result) results
    → ((attr : ℕ) → value_or_null (find attr seen) ≡ stored m attr)
    → (attr : ℕ)
    → value_or_null (find attr (observe (updated_signals updated results) seen))
      ≡ stored (store_results service_result results m) attr
unfolding IsSignalled observe updated_signals store_results
store_results-observed service_result [] updated m seen plain h attr = h attr
store_results-observed service_result (r ∷ results) updated m seen plain h attr =
    store_results-observed service_result results (bit_or updated (attribute_of r))
      (insert (attribute_of r) (stored_result service_result r) m)
      (insert (attribute_of r) r.value seen) plain.1
      (λ a. ground (
        arith,
        h a,
        plain.0,
        find-insert (attribute_of r) a r.value seen,
        find-insert (attribute_of r) a (stored_result service_result r) m,
      ))
      attr

event-IsObserved :
    (event : NodeEvent) (n : Node) (seen : Map (Option ℕ))
    → IsPlain event
    → IsObserved seen n
    → IsObserved (observe (handle_event event n).signals seen) (handle_event event n).node
unfolding handle_event attributes_read attribute attribute_written_handler data_change_handler
    enable_disable_handler status_changed_handler observe
event-IsObserved (read results service_result) n seen plain h attr =
    store_results-observed service_result results 0 n.m_node_attributes seen
      (IsSignalled-All service_result results plain) h attr
event-IsObserved (written a value status) n seen plain h attr =
    let entry : ReadResult = record (entry_of (find a n.m_node_attributes)) {
      status_code = status;
    } in
    elim (Bool-cases (status == good)) [
      | inl ok ↦ rw ok (
          ground (
            arith,
            h attr,
            find-insert a attr value seen,
            find-insert a attr (record entry { value = value }) n.m_node_attributes,
          ))
      | inr bad ↦ rw bad (ground (arith, h attr, h a, find-insert a attr entry n.m_node_attributes))
    ]
event-IsObserved (changed a value) n seen plain h attr = ground (
  arith,
  h attr,
  find-insert a attr value.value seen,
  find-insert a attr value n.m_node_attributes,
)
event-IsObserved (monitored a true status) n seen plain h attr = ground (arith, h attr)
event-IsObserved (monitored a false status) n seen plain h attr = h attr
event-IsObserved (status_changed a items param) n seen plain h attr = h attr

run_events-IsObserved :
    (events : List NodeEvent) (n : Node) (seen : Map (Option ℕ))
    → All IsPlain events
    → IsObserved seen n
    → let end = run_events events n seen in IsObserved end.1 end.0
unfolding run_events
run_events-IsObserved [] n seen plain h = h
run_events-IsObserved (event ∷ events) n seen plain h =
    run_events-IsObserved events (handle_event event n).node
      (observe (handle_event event n).signals seen) plain.1
      (event-IsObserved event n seen plain.0 h)

abbrev pub new_node : Node
new_node = record { m_node_attributes = []; m_monitoring_status = [] }

-- An observer that starts with no values and keeps the value of each attributeUpdated signal of a
-- new node has, after any sequence of reads, writes, data changes and monitoring signals in which
-- the results of a failed read carry no values, for every attribute the value that attribute()
-- returns.
pub observe-attribute :
    (events : List NodeEvent)
    → All IsPlain events
    → let end = run_events events new_node [] in
      (attr : ℕ) → value_or_null (find attr end.1) ≡ attribute attr end.0
unfolding attribute
observe-attribute events plain =
    run_events-IsObserved events new_node [] plain
      (λ attr. ground (arith, find-nil {V = Option ℕ} attr, find-nil {V = ReadResult} attr))
