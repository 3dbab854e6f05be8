-- ===== src/Gds/Finishing.antt =====
-- The end of a registration (opcua/client/qopcuagdsclient.cpp) in a client whose requests are all
-- accepted.
use qtopcua.Prelude.{ℕ, ◌≡◌, refl, ◌∙◌, true, ◌||◌, List, [], ◌∷◌, some, arith}
use qtopcua.Qt.Text.{Text, QString}
use qtopcua.Gds.State.{
  State, Gds, Answers, Action, stop, set_state, node_id, failed_to_get_certificate,
  get_certificate_status_name, start_signing_request_name, get_trust_list_name,
  certificate_update_required, failed_to_get_certificate_status,
}
use qtopcua.Gds.Registration.{null_id, has_no_directory, is_offline}
use qtopcua.Gds.Certificates.{
  get_certificate_status, start_certificate_request, certificate_check_timeout, update_trust_list,
  registration_done,
}
use qtopcua.Gds.Calls.{guarded}
use qtopcua.Gds.Dispatched.{
  IsReady-same, IsReady, Becomes, Becomes-seq, Becomes-acted, Becomes-changed, Becomes-choice,
}
use qtopcua.Gds.Serving.{Serves, calls, online, has-directory, goes-on, not-first, at-cons, at-some}

abbrev pub with_registration : Gds → Gds
with_registration g = record g {
  m_state = State.application_registered;
  m_check_timer_active = true;
  m_trust_list_timer_active = true;
}

module _ (answers : Answers) (s : Serves answers) (ids : ℕ → QString) where
  checks-status :
      (group : Text) (groups : List Text) (g : Gds)
      → IsReady ids g
      → g.m_certificate_groups ≡ group ∷ groups
      → Becomes (get_certificate_status answers g) g
  unfolding get_certificate_status
  checks-status group groups g r e =
      let call =
        calls answers s ids get_certificate_status_name
          (node_id g.m_app_record.application_id
            ∷ node_id (some group)
            ∷ node_id (some null_id)
            ∷ [])
          failed_to_get_certificate_status g r (omega arith) in
      (
        call.0,
        guarded (is_offline answers g) (has_no_directory g) _ _ _ (online answers s ids g r)
              (has-directory g r.there)
            ∙ at-cons g.m_certificate_groups group groups _ _ e
            ∙ call.1,
      )

  asks-certificate : (g : Gds) → IsReady ids g → Becomes (start_certificate_request answers g) g
  unfolding start_certificate_request
  asks-certificate g r =
      let call =
        calls answers s ids start_signing_request_name _ failed_to_get_certificate g r
          (omega arith) in
      (
        call.0,
        guarded (is_offline answers g) (has_no_directory g) _ _ _ (online answers s ids g r)
              (has-directory g r.there)
            ∙ goes-on answers.key_opens _ _ s.key_opens
            ∙ goes-on answers.key_loads _ _ s.key_loads
            ∙ goes-on answers.key_is_private _ _ s.key_is_private
            ∙ call.1,
      )

  checks-certificate :
      (group : Text) (groups : List Text) (g : Gds)
      → IsReady ids g
      → g.m_certificate_groups ≡ group ∷ groups
      → Becomes (certificate_check_timeout answers g) g
  unfolding certificate_check_timeout stop
  checks-certificate group groups g r e =
      Becomes-choice answers.certificate_is_null _ _ g g (_, refl)
        (Becomes-choice (answers.certificate_is_self_signed || answers.certificate_is_due) _ _ g g
          (Becomes-acted certificate_update_required _ g g (asks-certificate g r))
          (checks-status group groups g r e))

  updates-trust_list :
      (group : Text) (g : Gds)
      → IsReady ids g
      → g.m_certificate_group_node ≡ some group
      → Becomes (update_trust_list answers g) g
  unfolding update_trust_list
  updates-trust_list group g r e =
      let call =
        calls answers s ids get_trust_list_name
          (node_id g.m_app_record.application_id ∷ node_id (some group) ∷ [])
          failed_to_get_certificate g r (omega arith) in
      (
        call.0,
        not-first (is_offline answers g) _ _ (online answers s ids g r)
            ∙ at-some g.m_certificate_group_node group _ _ e
            ∙ call.1,
      )

  pub finishes-registration :
      (group : Text) (groups : List Text) (g : Gds)
      → IsReady ids g
      → g.m_certificate_groups ≡ group ∷ groups
      → g.m_certificate_group_node ≡ some group
      → Becomes (registration_done answers g) (with_registration g)
  unfolding registration_done set_state
  finishes-registration group groups g r e f =
      let entered : Gds = record g { m_state = State.application_registered } in
      let checking : Gds = record entered { m_check_timer_active = true } in
      let after = with_registration g in
      let ready : IsReady ids checking = IsReady-same ids g checking r refl refl refl in
      let ready_after : IsReady ids after = IsReady-same ids g after r refl refl refl in
      Becomes-seq (set_state State.application_registered) _ g entered after (_, refl)
        (Becomes-acted Action.application_registered _ entered after (
          Becomes-changed (λ h. record h { m_check_timer_active = true }) _ entered after
            (Becomes-seq (certificate_check_timeout answers) _ checking checking after
              (checks-certificate group groups checking ready e)
              (Becomes-changed (λ h. record h { m_trust_list_timer_active = true }) _ checking after
                (updates-trust_list group after ready_after f)))))
