-- ===== src/Tests/Nodes.antt =====
-- Runs of the nodes, with the subscriptions of a server that accepts everything.
use qtopcua.Prelude.{
  ℕ, ◌+◌, ◌≡◌, ◌^◌, ◌-◌, ◌⊎◌, refl, true, false, List, [], ◌∷◌, none, some, Bool, ◌==◌, find,
  insert, find2, insert2, inr, arith,
}
use qtopcua.Monitoring.Parameters.{Parameter, mode, default_parameters}
use qtopcua.Monitoring.Stack.{Stack, monitoring_status_changed}
use qtopcua.Monitoring.Subscription.{
  MonitoredItem, Result, Subscription, new_subscription, get_item_for_attribute,
}
use qtopcua.Monitoring.Items.{add_attribute_monitored_item, request_item}
use qtopcua.Monitoring.ModifyItem.{modify_monitoring, modify_monitoring_mode, mode_answer}
use qtopcua.Nodes.Node.{attribute}
use qtopcua.Nodes.Handles.{NodeImpl, ClientImpl, free_handle, register_node}
use qtopcua.Nodes.Fresh.{Registered, register_node-Registered}
use qtopcua.Nodes.Observer.{
  NodeEvent, read, written, changed, run_events, new_node, value_or_null, observe-attribute,
}
use qtopcua.Nodes.Mirror.{item_status, NodeAt, Mirrors}
use qtopcua.Nodes.Mirror.Calls.{after_call}
use qtopcua.Nodes.Mirror.Runs.{Run, start, add, modify, Mirrors-run}
use qtopcua.Nodes.Mirror.Mode.{ShowsMode, monitoring_mode_lost}

-- Item ids are 100 more than the client handle.
abbrev stack : Stack
stack = record {
  default_lifetime_count = 10000;
  default_max_keep_alive_count = 10;
  create_subscription = λ req. record {
    service_result = 0;
    subscription_id = 1;
    revised_publishing_interval = req.requested_publishing_interval;
    revised_lifetime_count = req.requested_lifetime_count;
    revised_max_keep_alive_count = req.requested_max_keep_alive_count;
  };
  modify_subscription = λ req. record {
    service_result = 0;
    revised_publishing_interval = req.requested_publishing_interval;
    revised_lifetime_count = req.requested_lifetime_count;
    revised_max_keep_alive_count = req.requested_max_keep_alive_count;
  };
  delete_subscription = λ id. 0;
  set_publishing_mode = λ id enabled. record { service_result = 0; first_result = some 0 };
  create_item = λ id req. record {
    status_code = 0;
    monitored_item_id = 100 + req.client_handle;
    revised_sampling_interval = req.sampling_interval;
    revised_queue_size = req.queue_size;
    event_filter_result = none;
  };
  modify_item = λ req. record {
    service_result = 0;
    first_result = some (record {
      status_code = 0;
      revised_sampling_interval = req.sampling_interval;
      revised_queue_size = req.queue_size;
      event_filter_result = none;
    });
  };
  delete_item = λ subscription item. 0;
  set_monitoring_mode =
      λ subscription item mode. record { service_result = 0; first_result = some 0 };
  fuzzy_compare = λ a b. a == b;
  to_double = λ v. none;
  to_uint = λ v. some 30;
}

-- The attribute Value.
abbrev value : ℕ
value = 4096

-- A node object at the address 5, known by the handle 7.
abbrev obj : NodeImpl
obj = record { m_handle = 7; front = new_node }

abbrev client : ClientImpl
client = record { m_handles = (7, 5) ∷ []; m_handle_counter = 6; objects = (5, obj) ∷ [] }

abbrev fresh : Subscription
fresh = new_subscription stack default_parameters

fresh_free : get_item_for_attribute 7 value fresh ≡ none
unfolding get_item_for_attribute new_subscription find
fresh_free = refl

fresh_blank : item_status 7 value fresh ≡ none
unfolding item_status get_item_for_attribute new_subscription find
fresh_blank = refl

client-NodeAt : NodeAt 7 obj client
unfolding find
client-NodeAt = record { address = 5; leads = refl; there = refl }

-- The handle after the counter is taken: the next one is given.
second_handle :
    register_node 5 client
    ≡ some (
      true,
      record {
        m_handles = (7, 5) ∷ (8, 5) ∷ [];
        m_handle_counter = 8;
        objects = (5, record { m_handle = 8; front = new_node }) ∷ [];
      },
    )
unfolding register_node free_handle find insert
second_handle = refl

register_node-Registered_example :
    ((1 ≡ 2 ^ 31 - 1) × (register_node 5 client ≡ some (false, client)))
    ⊎ ((h : ℕ) × (after : ClientImpl) × (register_node 5 client ≡ some (true, after))
        × Registered 5 client h after)
unfolding find
register_node-Registered_example =
    register_node-Registered 5 obj client refl (omega arith) (omega arith)

-- A read with a service fault, a write and a data change.
abbrev values : List NodeEvent
values =
    read
      (record {
        attribute = some value;
        value = none;
        server_timestamp = none;
        source_timestamp = none;
        status_code = 3;
      }
        ∷ [])
      5
    ∷ written value (some 11) 0
    ∷ changed value (record {
      attribute = some value;
      value = some 12;
      server_timestamp = none;
      source_timestamp = none;
      status_code = 0;
    })
    ∷ []

observe-attribute_example :
    let end = run_events values new_node [] in
    value_or_null (find value end.1) ≡ attribute value end.0
observe-attribute_example = observe-attribute values (inr (refl, tt), (tt, (tt, tt))) value

-- An item is added for the attribute.
abbrev monitoring : Result Bool
monitoring = add_attribute_monitored_item stack 7 value 1 default_parameters fresh

-- The item that was added.
abbrev monitored : MonitoredItem
monitored = record {
  handle = 7;
  attr = value;
  monitored_item_id = 101;
  client_handle = 1;
  parameters = record default_parameters {
    status_code = 0;
    monitored_item_id = 101;
    queue_size = 1;
  };
}

monitoring_item : get_item_for_attribute 7 value monitoring.state ≡ some 0
unfolding get_item_for_attribute new_subscription find find2 insert insert2
    add_attribute_monitored_item request_item
monitoring_item = refl

monitoring_there : find 0 monitoring.state.heap ≡ some monitored
unfolding new_subscription find find2 insert insert2 add_attribute_monitored_item request_item
monitoring_there = refl

-- The mode Sampling is set.
abbrev sampling : Result Bool
sampling = record {
  returned = true;
  state = monitoring.state;
  signals =
      monitoring_status_changed 7 value 1024 (record monitored.parameters { monitoring_mode = 1 })
      ∷ [];
}

mode_is_set :
    modify_monitoring stack 7 value Parameter.monitoring_mode (mode 1) monitoring.state
    ≡ some sampling
unfolding modify_monitoring modify_monitoring_mode mode_answer get_item_for_attribute
    new_subscription find find2 insert insert2 add_attribute_monitored_item request_item
mode_is_set = refl

-- An item is added for the attribute.
added_item : Run 7 value fresh client monitoring.state (after_call monitoring client)
added_item = add stack 1 default_parameters fresh client start fresh_free

monitoring-Mirrors : Mirrors 7 value monitoring.state (after_call monitoring client)
unfolding find
monitoring-Mirrors =
    Mirrors-run 7 value fresh client obj client-NodeAt fresh_blank refl monitoring.state
      (after_call monitoring client) added_item

Mirrors-run_example :
    Mirrors 7 value monitoring.state (after_call sampling (after_call monitoring client))
unfolding find
Mirrors-run_example =
    Mirrors-run 7 value fresh client obj client-NodeAt fresh_blank refl monitoring.state
      (after_call sampling (after_call monitoring client))
      (modify stack Parameter.monitoring_mode (mode 1) monitoring.state
        (after_call monitoring client) sampling added_item mode_is_set)

monitoring_mode_lost_example :
    (r : Result Bool) × (modify_monitoring stack 7 value Parameter.monitoring_mode
        (mode 1)
        monitoring.state
      ≡ some r)
    × (item_status 7 value r.state ≡ some monitored.parameters)
    × ShowsMode 7 value 1 (after_call r (after_call monitoring client))
monitoring_mode_lost_example =
    monitoring_mode_lost stack 7 value 1 monitoring.state 0 monitored monitoring_item
      monitoring_there refl refl (after_call monitoring client) monitoring-Mirrors
