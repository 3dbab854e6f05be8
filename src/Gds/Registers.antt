-- ===== src/Gds/Registers.antt =====
-- An application gets registered with a server that answers every question
-- (opcua/client/qopcuagdsclient.cpp).
use qtopcua.Prelude.{
  ℕ, ◌≡◌, ◌<◌, refl, ◌∙◌, Bool, true, false, List, [], ◌∷◌, ◌==◌, if◌then◌else◌, find, All, arith,
}
use qtopcua.Qt.Text.{Text, QString, size}
use qtopcua.Qt.Api.{Qt}
use qtopcua.Encoding.State.{of_buffer}
use qtopcua.Encoding.Objects.{encode_application_record}
use qtopcua.Gds.State.{
  Gds, Answers, Op, stop, ◌⨾◌, store_application_id, certificate_groups_received,
  certificate_types_name, find_applications_name, register_application_name,
  get_certificate_groups_name,
}
use qtopcua.Gds.Registration.{
  MethodResult, has_no_application_id, with_application_id, find_applications_finished,
  register_application_finished,
}
use qtopcua.Gds.Certificates.{
  certificate_types_resolved, get_certificate_groups_finished, certificate_types_updated,
}
use qtopcua.Gds.Directory.{Resolved}
use qtopcua.Gds.Events.{Event, handlers, method_call_finished_slot, handle_event}
use qtopcua.Gds.Dispatched.{
  IsReady-same, IsReady, AreDistinct, Becomes, Becomes-seq, Becomes-acted, Becomes-changed,
  dispatch-find,
}
use qtopcua.Gds.Finishing.{with_registration, finishes-registration}
use qtopcua.Gds.Serving.{
  Serves, with_group, with_types, asks-groups, registers-new, resolves-types, gets-types,
}

-- Events one after the other, with the same answers.
unfoldable pub run_events : ⦃qt : Qt⦄ → Answers → List Event → Op
unfolding handle_event
run_events answers [] = stop
run_events answers (event ∷ events) = handle_event answers event ⨾ run_events answers events

known-names :
    ⦃qt : Qt⦄ (answers : Answers) (result : MethodResult) (status : ℕ)
    → All (λ h. h.0 < 9) (handlers answers result status)
known-names answers result status = (
  omega arith,
  (
    omega arith,
    (
      omega arith,
      (omega arith, (omega arith, (omega arith, (omega arith, (omega arith, (omega arith, tt)))))),
    ),
  ),
)

pub chosen : {A : Type 0} (b : Bool) (x y : A) → b ≡ true → (if b then x else y) ≡ x
chosen b x y e = rw e refl

abbrev pub with_groups : MethodResult → Text → Gds → Gds
with_groups listed group g = with_group group (record g { m_certificate_groups = listed.strings })

-- The answer for the certificate types of the group.
abbrev pub types_answer : QString → Resolved
types_answer id = record {
  path = certificate_types_name ∷ [];
  status_code = 0;
  targets = (true, id) ∷ [];
}

-- The events of a registration.
abbrev pub registration :
    (ℕ → QString) → MethodResult → MethodResult → MethodResult → QString → ℕ → List Event
registration ids found registered listed types attr =
    Event.method_call_finished (ids find_applications_name) found 0
    ∷ Event.method_call_finished (ids register_application_name) registered 0
    ∷ Event.method_call_finished (ids get_certificate_groups_name) listed 0
    ∷ Event.certificate_types_resolved (types_answer types)
    ∷ Event.certificate_types_updated attr
    ∷ []

module _ ⦃qt : Qt⦄ (answers : Answers) (s : Serves answers) (ids : ℕ → QString)
    (distinct : AreDistinct ids) where
  -- No application is found, and the record is sent.
  finds-none :
      (found : MethodResult) (g : Gds)
      → IsReady ids g
      → has_no_application_id g ≡ true
      → (encode_application_record g.m_app_record (of_buffer [])).0 ≡ true
      → (size found.type_id == 0) ≡ true
      → Becomes
          (handle_event answers (Event.method_call_finished (ids find_applications_name) found 0) g)
          g
  unfolding handle_event method_call_finished_slot find_applications_finished find
  finds-none found g r new encodes nothing =
      let sent = registers-new answers s ids g r new encodes in
      (
        sent.0,
        dispatch-find ids distinct (handlers answers found 0) find_applications_name _ g r
              (known-names answers found 0) (omega arith) refl
            ∙ chosen (size found.type_id == 0) _ _ nothing
            ∙ sent.1,
      )

  -- The application has got its id, and the certificate groups are asked for.
  is-registered :
      (registered : MethodResult) (g : Gds)
      → IsReady ids g
      → Becomes
          (handle_event answers
            (Event.method_call_finished (ids register_application_name) registered 0)
            g)
          (with_application_id registered.string g)
  unfolding handle_event method_call_finished_slot register_application_finished find
  is-registered registered g r =
      let h : Gds = with_application_id registered.string g in
      let ready : IsReady ids h = IsReady-same ids g h r refl refl refl in
      let asked = Becomes-changed (with_application_id registered.string) _ g h (
        Becomes-acted (store_application_id registered.string) _ h h
          (asks-groups answers s ids h ready)) in
      (
        asked.0,
        dispatch-find ids distinct (handlers answers registered 0) register_application_name _ g r
              (known-names answers registered 0) (omega arith) refl
            ∙ asked.1,
      )

  lists-groups :
      (listed : MethodResult) (group : Text) (groups : List Text) (g : Gds)
      → IsReady ids g
      → listed.strings ≡ group ∷ groups
      → Becomes
          (handle_event answers
            (Event.method_call_finished (ids get_certificate_groups_name) listed 0)
            g)
          (with_groups listed group g)
  unfolding handle_event method_call_finished_slot get_certificate_groups_finished find
  lists-groups listed group groups g r e =
      let h : Gds = record g { m_certificate_groups = listed.strings } in
      let ready : IsReady ids h = IsReady-same ids g h r refl refl refl in
      let after = with_groups listed group g in
      let resolved =
        Becomes-changed (λ i. record i { m_certificate_groups = listed.strings }) _ g after
          (Becomes-acted (certificate_groups_received listed.strings) _ h after
            (resolves-types answers s ids group groups h ready e)) in
      (
        resolved.0,
        dispatch-find ids distinct (handlers answers listed 0) get_certificate_groups_name _ g r
              (known-names answers listed 0) (omega arith) refl
            ∙ resolved.1,
      )

  finds-types :
      (id : QString) (g : Gds)
      → IsReady ids g
      → (size id == 0) ≡ false
      → Becomes
          (handle_event answers (Event.certificate_types_resolved (types_answer id)) g)
          (with_types id g)
  unfolding handle_event certificate_types_resolved
  finds-types id g r full =
      Becomes-changed (λ h. record h { m_certificate_types_node_id = id }) _ g (with_types id g)
        (gets-types answers s ids id g r full)

  pub registers :
      (found registered listed : MethodResult) (group : Text) (groups : List Text) (types : QString)
      (attr : ℕ) (g : Gds)
      → IsReady ids g
      → has_no_application_id g ≡ true
      → (encode_application_record g.m_app_record (of_buffer [])).0 ≡ true
      → (size found.type_id == 0) ≡ true
      → listed.strings ≡ group ∷ groups
      → (size types == 0) ≡ false
      → Becomes (run_events answers (registration ids found registered listed types attr) g) (
          with_registration
            (with_types types (with_groups listed group (with_application_id registered.string g))))
  unfolding run_events handle_event certificate_types_updated stop
  registers found registered listed group groups types attr g r new encodes nothing e full =
      let g1 : Gds = with_application_id registered.string g in
      let g2 : Gds = with_groups listed group g1 in
      let g3 : Gds = with_types types g2 in
      let end = with_registration g3 in
      let r1 : IsReady ids g1 = IsReady-same ids g g1 r refl refl refl in
      let r2 : IsReady ids g2 = IsReady-same ids g g2 r refl refl refl in
      let r3 : IsReady ids g3 = IsReady-same ids g g3 r refl refl refl in
      Becomes-seq _ _ g g end (finds-none found g r new encodes nothing) (
        Becomes-seq _ _ g g1 end (is-registered registered g r) (
          Becomes-seq _ _ g1 g2 end (lists-groups listed group groups g1 r1 e) (
            Becomes-seq _ _ g2 g3 end (finds-types types g2 r2 full) (
              Becomes-seq _ _ g3 end end
                (finishes-registration answers s ids group groups g3 r3 e refl) (_, refl)))))
