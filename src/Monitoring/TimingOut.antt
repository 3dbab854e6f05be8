-- ===== src/Monitoring/TimingOut.antt =====
-- What sendTimeoutNotification tells the backend, and what it leaves of a subscription.
use qtopcua.Prelude.{
  ℕ, ◌≡◌, refl, sym, ◌∙◌, Bool, true, false, ◌&&◌, ◌||◌, List, [], ◌∷◌, none, some, arith, ◌==◌,
  Option-cases, ◌⊎◌, inl, inr,
}
use qtopcua.Monitoring.Stack.{timeout}
use qtopcua.Monitoring.Subscription.{MonitoredItem, Subscription, Result, get_item_for_attribute}
use qtopcua.Monitoring.Notify.{handles_and_attributes, timeout_result, send_timeout_notification}
use qtopcua.Monitoring.Consistent.{IsConsistent, IsConsistent-members, get_item-find2}
use qtopcua.Monitoring.Objects.{is_among, AllCollected, AllCollected-live}

-- Whether an attribute is in the list of the signal.
abbrev pub is_listed : ℕ → ℕ → List (ℕ × ℕ) → Bool
is_listed handle attr [] = false
is_listed handle attr ((h, a) ∷ entries) =
    (h == handle && a == attr) || is_listed handle attr entries

listed-among :
    (handle attr : ℕ) (items : List MonitoredItem)
    → is_listed handle attr (handles_and_attributes items) ≡ is_among handle attr items
listed-among handle attr [] = refl
listed-among handle attr (item ∷ items) = ground (arith, listed-among handle attr items)

-- What is promised of the notification: one signal that lists every monitored attribute, and the
-- timeout is remembered.
pub record TimedOut (s : Subscription) (r : Result (Unit {0})) : Type 0 where
  pub entries : List (ℕ × ℕ)
  pub signalled : r.signals ≡ timeout entries ∷ []
  pub listed :
      (handle attr : ℕ)
      → (get_item_for_attribute handle attr s ≡ none) ⊎ (is_listed handle attr entries ≡ true)
  pub remembered : r.state.m_timeout ≡ true
  pub consistent : IsConsistent r.state

module _ (s : Subscription) (c : IsConsistent s) where
  all : AllCollected s.m_node_handle_to_item_mapping s.heap
  all =
      AllCollected-live s.m_node_handle_to_item_mapping s.heap c.nodes_unique
        (λ handle attr p e. let live = c.node_live handle attr p e in (live.0, live.1))

  listed_all :
      (handle attr p : ℕ)
      → get_item_for_attribute handle attr s ≡ some p
      → is_listed handle attr (handles_and_attributes all.items) ≡ true
  listed_all handle attr p e =
      let there = sym (get_item-find2 handle attr s) ∙ e in
      let live = c.node_live handle attr p there in
      let among = all.complete handle attr p live.0 there live.1 in
      listed-among handle attr all.items ∙ (rw (live.2, live.3) at among)

  -- In a consistent state, a timeout uses no pointer that dangles and emits one signal, which lists
  -- every monitored attribute; it leaves a consistent state that remembers the timeout.
  pub send_timeout_notification-TimedOut :
      (r : Result (Unit {0})) × (send_timeout_notification s ≡ some r) × TimedOut s r
  unfolding send_timeout_notification
  send_timeout_notification-TimedOut = (
    timeout_result all.items s,
    rw (all.found, send_timeout_notification) refl,
    record {
      entries = handles_and_attributes all.items;
      signalled = refl;
      listed = λ handle attr. elim (Option-cases (get_item_for_attribute handle attr s)) [
        | inl missing ↦ inl missing
        | inr found ↦ inr (listed_all handle attr found.0 found.1)
      ];
      remembered = refl;
      consistent = IsConsistent-members s c;
    },
  )
