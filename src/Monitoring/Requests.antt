-- ===== src/Monitoring/Requests.antt =====
-- What modifySubscriptionParameters asks the server for.
use qtopcua.Prelude.{ℕ, ◌≡◌, refl, true, Option, none, some, ◌⊎◌, inl, inr}
use qtopcua.Monitoring.Parameters.{Parameter, Variant}
use qtopcua.Monitoring.Stack.{Stack, ModifySubscriptionRequest}
use qtopcua.Monitoring.Subscription.{Subscription}
use qtopcua.Monitoring.Modify.{
  Requested, no_match, refused, request, subscription_request, converted,
}
use qtopcua.Monitoring.ModifyItem.{is_parameter}

-- The members of a request that a change of some parameter leaves as they are.
pub record KeepsOthers (item : Parameter) (s : Subscription) (req : ModifySubscriptionRequest)
    : Type 0 where
  pub subscription : req.subscription_id ≡ s.m_subscription_id
  pub interval :
      (is_parameter item Parameter.publishing_interval ≡ true)
      ⊎ (req.requested_publishing_interval ≡ s.m_interval)
  pub lifetime :
      (is_parameter item Parameter.lifetime_count ≡ true)
      ⊎ (req.requested_lifetime_count ≡ s.m_lifetime_count)
  pub keep_alive :
      (is_parameter item Parameter.max_keep_alive_count ≡ true)
      ⊎ (req.requested_max_keep_alive_count ≡ s.m_max_keepalive_count)
  pub notifications :
      (is_parameter item Parameter.max_notifications_per_publish ≡ true)
      ⊎ (req.max_notifications_per_publish ≡ s.m_max_notifications_per_publish)
  pub priority_reset : (is_parameter item Parameter.priority ≡ true) ⊎ (req.priority ≡ 0)

-- A test on every request, whether there is one or not.
abbrev pub IfRequested :
    (ModifySubscriptionRequest → Type 0) → Requested ModifySubscriptionRequest → Type 0
IfRequested P no_match = Unit
IfRequested P (refused status) = Unit
IfRequested P (request req) = P req

IfRequested-converted :
    (P : ModifySubscriptionRequest → Type 0) (f : ℕ → ModifySubscriptionRequest) (o : Option ℕ)
    → ((n : ℕ) → P (f n))
    → IfRequested P (converted f o)
IfRequested-converted P f none h = tt
IfRequested-converted P f (some n) h = h n

-- When a parameter of a subscription is modified, the request that is sent, if there is one, names
-- the subscription and has its current publishing interval, lifetime count, keep-alive count and
-- notification limit but for the parameter that is modified; its priority is 0 unless the priority
-- is modified.
pub subscription_request-KeepsOthers :
    (stack : Stack) (item : Parameter) (value : Variant) (s : Subscription)
    → IfRequested (KeepsOthers item s) (subscription_request stack item value s)
unfolding subscription_request
subscription_request-KeepsOthers stack Parameter.publishing_interval value s =
    IfRequested-converted _ _ (stack.to_double value) (λ n. record {
      subscription = refl;
      interval = inl refl;
      lifetime = inr refl;
      keep_alive = inr refl;
      notifications = inr refl;
      priority_reset = inr refl;
    })
subscription_request-KeepsOthers stack Parameter.lifetime_count value s =
    IfRequested-converted _ _ (stack.to_uint value) (λ n. record {
      subscription = refl;
      interval = inr refl;
      lifetime = inl refl;
      keep_alive = inr refl;
      notifications = inr refl;
      priority_reset = inr refl;
    })
subscription_request-KeepsOthers stack Parameter.max_keep_alive_count value s =
    IfRequested-converted _ _ (stack.to_uint value) (λ n. record {
      subscription = refl;
      interval = inr refl;
      lifetime = inr refl;
      keep_alive = inl refl;
      notifications = inr refl;
      priority_reset = inr refl;
    })
subscription_request-KeepsOthers stack Parameter.priority value s =
    IfRequested-converted _ _ (stack.to_uint value) (λ n. record {
      subscription = refl;
      interval = inr refl;
      lifetime = inr refl;
      keep_alive = inr refl;
      notifications = inr refl;
      priority_reset = inl refl;
    })
subscription_request-KeepsOthers stack Parameter.max_notifications_per_publish value s =
    IfRequested-converted _ _ (stack.to_uint value) (λ n. record {
      subscription = refl;
      interval = inr refl;
      lifetime = inr refl;
      keep_alive = inr refl;
      notifications = inl refl;
      priority_reset = inr refl;
    })
subscription_request-KeepsOthers stack Parameter.publishing_enabled value s = tt
subscription_request-KeepsOthers stack Parameter.sampling_interval value s = tt
subscription_request-KeepsOthers stack Parameter.filter value s = tt
subscription_request-KeepsOthers stack Parameter.queue_size value s = tt
subscription_request-KeepsOthers stack Parameter.discard_oldest value s = tt
subscription_request-KeepsOthers stack Parameter.monitoring_mode value s = tt
