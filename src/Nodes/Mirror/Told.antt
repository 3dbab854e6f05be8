-- ===== src/Nodes/Mirror/Told.antt =====
-- Signals of a changed monitoring status that change no parameter that only an item has.
use qtopcua.Prelude.{
  ℕ, ◌≡◌, refl, sym, ap, ◌∙◌, ◌⊎◌, false, List, [], ◌∷◌, Option, none, some, ◌==◌, find,
  find-insert, Option-cases, Bool-cases, inl, inr, arith,
}
use qtopcua.Monitoring.Parameters.{Parameter, MonitoringParameters}
use qtopcua.Monitoring.Stack.{monitoring_status_changed}
use qtopcua.Monitoring.Subscription.{MonitoredItem, Subscription, good}
use qtopcua.Monitoring.Modify.{status_signals}
use qtopcua.Nodes.Node.{Node, has_flag, merged, status_changed_handler, status_changed_map}
use qtopcua.Nodes.Handles.{NodeImpl, ClientImpl}
use qtopcua.Nodes.Dispatch.{deliver, handle_monitoring_status_changed, receive, receive_all}
use qtopcua.Nodes.Mirror.{own_parameters, Agree, Mirrors}
use qtopcua.Nodes.Mirror.Items.{status_of}

-- The flags name no parameter that only an item has.
abbrev pub IsForeign : ℕ → Type 0
IsForeign items =
    (has_flag items Parameter.sampling_interval ≡ false)
    × (has_flag items Parameter.filter ≡ false)
    × (has_flag items Parameter.queue_size ≡ false)
    × (has_flag items Parameter.discard_oldest ≡ false)

-- A status that is still there, with the same own parameters.
abbrev Kept : Option MonitoringParameters → Option MonitoringParameters → Type 0
Kept before after =
    (before ≡ after)
    ⊎ ((p : MonitoringParameters) × (q : MonitoringParameters) × (before ≡ some p)
        × (after ≡ some q)
        × (own_parameters p ≡ own_parameters q))

Agree-Kept :
    (item before after : Option MonitoringParameters)
    → Kept before after
    → Agree item before
    → Agree item after
Agree-Kept item before after (inl same) a = rw⁻¹ same a
Agree-Kept none before after (inr k) (inl gone) = cc
Agree-Kept none before after (inr k) (inr bad) =
    let same : k.0.status_code ≡ k.1.status_code = ap (λ r. r.status_code) k.4 in
    let old : bad.0 ≡ k.0 = cc in inr (k.1, k.3, rw⁻¹ same (rw⁻¹ old bad.2))
Agree-Kept (some p) before after (inr k) a =
    let same : k.0.status_code ≡ k.1.status_code = ap (λ r. r.status_code) k.4 in
    let old : a.0 ≡ k.0 = cc in
    (
      k.1,
      k.3,
      a.2 ∙ ap own_parameters old ∙ k.4,
      sym same ∙ ap (λ r. r.status_code) (sym old) ∙ a.3,
    )

module _ (items : ℕ) (param : MonitoringParameters) (foreign : IsForeign items) where
  own_parameters-merged :
      (it : MonitoringParameters) → own_parameters it ≡ own_parameters (merged items param it)
  unfolding merged
  own_parameters-merged it = rw (foreign.0, foreign.1, foreign.2, foreign.3) refl

  status_changed-Kept :
      (attr changed : ℕ) (n : Node)
      → Kept (status_of attr n) (status_of attr (status_changed_handler changed items param n).node)
  unfolding status_changed_handler status_changed_map
  status_changed-Kept attr changed n = elim (Option-cases (find changed n.m_monitoring_status)) [
    | inl missing ↦ inl (rw (missing, status_changed_map) refl)
    | inr it ↦ elim (Bool-cases (param.status_code == good)) [
      | inl ok ↦ elim (Bool-cases (changed == attr)) [
        | inl same ↦ inr (
          it.0,
          merged items param it.0,
          ground (arith, it.1),
          ground (
            arith,
            it.1,
            find-insert changed attr (merged items param it.0) n.m_monitoring_status,
          ),
          own_parameters-merged it.0,
        )
        | inr other ↦ inl (
            ground (
              arith,
              it.1,
              find-insert changed attr (merged items param it.0) n.m_monitoring_status,
            ))
      ]
      | inr bad ↦ inl (ground (arith, it.1))
    ]
  ]

  module _ (handle attr : ℕ) (s : Subscription) where
    Mirrors-deliver :
        (to changed : ℕ) (c : ClientImpl)
        → Mirrors handle attr s c
        → Mirrors handle attr s (deliver (status_changed_handler changed items param) to c).client
    unfolding deliver
    Mirrors-deliver to changed c m = elim (Option-cases (find to c.m_handles)) [
      | inl unknown ↦ rw (unknown, deliver) m
      | inr p ↦ elim (Option-cases (find p.0 c.objects)) [
        | inl gone ↦ rw (p.1, deliver) (rw (gone, deliver) m)
        | inr x ↦
            let handled = status_changed_handler changed items param x.0.front in
            let y : NodeImpl = record x.0 { front = handled.node } in
            rw (p.1, deliver)
              (rw (x.1, deliver)
                (elim (Bool-cases (p.0 == m.at_node.address)) [
                  | inl same ↦
                      let obj_same : m.obj ≡ x.0 = ground (arith, x.1, m.at_node.there) in
                      record {
                        obj = y;
                        at_node = record {
                          address = m.at_node.address;
                          leads = m.at_node.leads;
                          there = ground (arith, find-insert p.0 m.at_node.address y c.objects);
                        };
                        agree =
                            Agree-Kept _ _ _ (status_changed-Kept attr changed x.0.front)
                              (rw obj_same at m.agree);
                      }
                  | inr other ↦ record {
                    obj = m.obj;
                    at_node = record {
                      address = m.at_node.address;
                      leads = m.at_node.leads;
                      there =
                          ground
                            (arith, m.at_node.there, find-insert p.0 m.at_node.address y c.objects);
                    };
                    agree = m.agree;
                  }
                ]))
      ]
    ]

    pub Mirrors-told :
        (to changed : ℕ) (c : ClientImpl)
        → Mirrors handle attr s c
        → Mirrors handle attr s
            (receive_all (monitoring_status_changed to changed items param ∷ []) c).client
    unfolding receive_all receive handle_monitoring_status_changed
    Mirrors-told to changed c m = Mirrors-deliver to changed c m

    pub Mirrors-status_signals :
        (told : List MonitoredItem) (c : ClientImpl)
        → Mirrors handle attr s c
        → Mirrors handle attr s (receive_all (status_signals items param told) c).client
    unfolding receive_all receive handle_monitoring_status_changed
    Mirrors-status_signals [] c m = m
    Mirrors-status_signals (item ∷ told) c m =
        Mirrors-status_signals told _ (Mirrors-deliver item.handle item.attr c m)
