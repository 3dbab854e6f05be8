-- ===== src/Nodes/Mirror/Mode.antt =====
-- The monitoring mode, which modifyMonitoring tells the node and does not store in the item.
use qtopcua.Prelude.{ℕ, ◌≡◌, refl, Bool, true, [], ◌∷◌, some, find}
use qtopcua.Monitoring.Parameters.{Parameter, parameter_flag, MonitoringParameters, mode}
use qtopcua.Monitoring.Stack.{Stack, monitoring_status_changed}
use qtopcua.Monitoring.Subscription.{
  MonitoredItem, Subscription, Result, good, get_item_for_attribute,
}
use qtopcua.Monitoring.ModifyItem.{
  with_status, mode_answer, modify_monitoring_mode, modify_monitoring,
}
use qtopcua.Nodes.Node.{merged}
use qtopcua.Nodes.Handles.{NodeImpl, ClientImpl}
use qtopcua.Nodes.Mirror.{item_status, NodeAt, Agree, Mirrors, NodeAt-status_changed}
use qtopcua.Nodes.Mirror.Items.{status_of, status_changed-find}
use qtopcua.Nodes.Mirror.Calls.{after_call, item_status-some}

-- The node found under a handle has a Good status of an attribute, with a monitoring mode.
pub record ShowsMode (handle attr m : ℕ) (c : ClientImpl) : Type 0 where
  pub obj : NodeImpl
  pub at_node : NodeAt handle obj c
  pub status : MonitoringParameters
  pub shown : find attr obj.front.m_monitoring_status ≡ some status
  pub has_mode : status.monitoring_mode ≡ m
  pub is_good : status.status_code ≡ good

module _ (stack : Stack) (handle attr m : ℕ) (s : Subscription) (address : ℕ) (item : MonitoredItem)
    (found : get_item_for_attribute handle attr s ≡ some address)
    (there : find address s.heap ≡ some item)
    (served : (stack.set_monitoring_mode s.m_subscription_id item.monitored_item_id
        m).service_result
      ≡ good)
    (accepted : (stack.set_monitoring_mode s.m_subscription_id item.monitored_item_id
        m).first_result
      ≡ some good) where
  abbrev new_status : MonitoringParameters
  new_status = with_status good (record item.parameters { monitoring_mode = m })

  abbrev outcome : Result Bool
  outcome = record {
    returned = true;
    state = s;
    signals =
        monitoring_status_changed handle attr (parameter_flag Parameter.monitoring_mode) new_status
        ∷ [];
  }

  modify_mode-outcome :
      modify_monitoring stack handle attr Parameter.monitoring_mode (mode m) s ≡ some outcome
  unfolding modify_monitoring modify_monitoring_mode mode_answer
  modify_mode-outcome =
      rw (found, modify_monitoring)
        (rw (there, modify_monitoring)
          (rw (served, modify_monitoring_mode) (rw (accepted, mode_answer) refl)))

  -- Where a node and an item that monitors one of its attributes are in step, modifyMonitoring with
  -- a new monitoring mode that the server accepts gives the node a Good status with the new mode,
  -- and leaves the parameters of the item as they were, with the old mode.
  pub monitoring_mode_lost :
      (c : ClientImpl)
      → Mirrors handle attr s c
      → (r : Result Bool) × (modify_monitoring stack handle attr Parameter.monitoring_mode
            (mode m)
            s
          ≡ some r)
        × (item_status handle attr r.state ≡ some item.parameters)
        × ShowsMode handle attr m (after_call r c)
  unfolding merged
  monitoring_mode_lost c mirrors =
      let before = item_status-some handle attr s address item found there in
      let agree : Agree (some item.parameters) (status_of attr mirrors.obj.front) =
        rw before at mirrors.agree in
      let flag : ℕ = parameter_flag Parameter.monitoring_mode in
      (
        outcome,
        modify_mode-outcome,
        before,
        record {
          obj = _;
          at_node = NodeAt-status_changed handle mirrors.obj c mirrors.at_node attr flag new_status;
          status = merged flag new_status agree.0;
          shown = status_changed-find attr new_status mirrors.obj.front flag agree.0 agree.1 refl;
          has_mode = refl;
          is_good = agree.3;
        },
      )
