-- ===== src/Gds/Serving.antt =====
-- The steps of a client (opcua/client/qopcuagdsclient.cpp) whose requests are all accepted.
use qtopcua.Prelude.{
  ℕ, ◌≡◌, ◌<◌, refl, ◌∙◌, Bool, true, false, not, ◌||◌, List, [], ◌∷◌, Option, none, some, ◌==◌,
  if◌then◌else◌, arith,
}
use qtopcua.Qt.Text.{Text, QString, size}
use qtopcua.Qt.Api.{Qt}
use qtopcua.Encoding.State.{of_buffer}
use qtopcua.Encoding.Objects.{encode_application_record}
use qtopcua.Gds.State.{
  Gds, Answers, Error, Argument, stop, extension_object, failed_to_register_application,
  failed_to_get_certificate_status, set_error, directory, resolve_browse_path, create_node,
  read_value, certificate_types_name, call_directory_method, register_application_name,
  get_certificate_groups_name,
}
use qtopcua.Gds.Registration.{
  record_type_id, has_no_application_id, has_no_directory, is_offline, register_application,
  get_certificate_groups,
}
use qtopcua.Gds.Certificates.{get_certificate_types, resolve_certificate_types}
use qtopcua.Gds.Calls.{guarded, call-known}
use qtopcua.Gds.Dispatched.{IsReady, Becomes, Becomes-acted, Becomes-changed}

-- The client is connected, every request and every node is accepted, and there is a private key.
pub record Serves (answers : Answers) : Type 0 where
  pub online : answers.is_connected ≡ true
  pub accepted : answers.accepts ≡ true
  pub nodes : (id : QString) → answers.has_node id ≡ true
  pub key_opens : answers.key_opens ≡ true
  pub key_loads : answers.key_loads ≡ true
  pub key_is_private : answers.key_is_private ≡ true

pub has-directory : (g : Gds) → g.m_directory_node ≡ directory → has_no_directory g ≡ false
has-directory g e = ground (arith, e)

pub goes-on : {A : Type 0} (b : Bool) (x y : A) → b ≡ true → (if not b then x else y) ≡ y
goes-on b x y e = rw e refl

pub not-first : {A : Type 0} (b : Bool) (x y : A) → b ≡ false → (if b then x else y) ≡ y
not-first b x y e = rw e refl

pub at-cons :
    {A B : Type 0} (l : List A) (a : A) (rest : List A) (x : B) (f : A → List A → B)
    → l ≡ a ∷ rest
    → (elim l [ [] ↦ x | b ∷ bs ↦ f b bs ]) ≡ f a rest
at-cons l a rest x f e = rw e refl

pub at-some :
    {A B : Type 0} (o : Option A) (a : A) (x : B) (f : A → B)
    → o ≡ some a
    → (elim o [ none ↦ x | some b ↦ f b ]) ≡ f a
at-some o a x f e = rw e refl

abbrev pub with_group : Text → Gds → Gds
with_group group g = record g { m_certificate_group_node = some group }

abbrev pub with_types : QString → Gds → Gds
with_types id g = record g { m_certificate_types_node_id = id; m_certificate_types_node = true }

module _ (answers : Answers) (s : Serves answers) (ids : ℕ → QString) where
  pub online : (g : Gds) → IsReady ids g → is_offline answers g ≡ false
  online g r = ground (arith, r.client, s.online)

  pub calls :
      (name : ℕ) (arguments : List Argument) (e : Error) (g : Gds)
      → IsReady ids g
      → name < 9
      → Becomes (call_directory_method answers name arguments e g) g
  calls name arguments e g r l =
      (_, call-known name g (ids name) (r.known name l) answers s.accepted arguments e r.there)

  pub asks-groups : (g : Gds) → IsReady ids g → Becomes (get_certificate_groups answers g) g
  unfolding get_certificate_groups
  asks-groups g r =
      let call = calls get_certificate_groups_name _ _ g r (omega arith) in
      (
        call.0,
        guarded (is_offline answers g) (has_no_directory g) _ _ _ (online g r)
              (has-directory g r.there)
            ∙ call.1,
      )

  module _ ⦃qt : Qt⦄ where
    pub registers-new :
        (g : Gds)
        → IsReady ids g
        → has_no_application_id g ≡ true
        → (encode_application_record g.m_app_record (of_buffer [])).0 ≡ true
        → Becomes (register_application answers g) g
    unfolding register_application
    registers-new g r new encodes =
        let call =
          calls register_application_name
            (extension_object (record_type_id answers g)
                (encode_application_record g.m_app_record (of_buffer [])).1.m_data
              ∷ [])
            failed_to_register_application g r (omega arith) in
        let offline : (not (has_no_application_id g) || is_offline answers g) ≡ false =
          ground (arith, new, online g r) in
        (
          call.0,
          guarded _ (has_no_directory g) _ _ _ offline (has-directory g r.there)
              ∙ goes-on (encode_application_record g.m_app_record (of_buffer [])).0 _ _ encodes
              ∙ call.1,
        )

  -- A request of a node that is accepted.
  pub stops : (e : Error) (g : Gds) → Becomes ((if answers.accepts then stop else set_error e) g) g
  unfolding stop
  stops e g = rw s.accepted (_, refl)

  pub resolves-types :
      (group : Text) (groups : List Text) (g : Gds)
      → IsReady ids g
      → g.m_certificate_groups ≡ group ∷ groups
      → Becomes (resolve_certificate_types answers g) (with_group group g)
  unfolding resolve_certificate_types
  resolves-types group groups g r e =
      let after = with_group group g in
      let sent = Becomes-changed (with_group group) _ g after (
        Becomes-acted (create_node (some group)) _ after after (
          Becomes-acted (resolve_browse_path 0 certificate_types_name) _ after after
            (stops failed_to_get_certificate_status after))) in
      (
        sent.0,
        not-first (is_offline answers g) _ _ (online g r)
            ∙ at-cons g.m_certificate_groups group groups _ _ e
            ∙ goes-on (answers.has_node (some group)) _ _ (s.nodes (some group))
            ∙ sent.1,
      )

  pub gets-types :
      (id : QString) (g : Gds)
      → IsReady ids g
      → (size id == 0) ≡ false
      → Becomes
          (get_certificate_types answers (record g { m_certificate_types_node_id = id }))
          (with_types id g)
  unfolding get_certificate_types
  gets-types id g r full =
      let h : Gds = record g { m_certificate_types_node_id = id } in
      let after = with_types id g in
      let sent =
        Becomes-changed (λ i. record i { m_certificate_types_node = true }) _ h after
          (Becomes-acted (create_node id) _ after after (
            Becomes-acted read_value _ after after
              (stops failed_to_get_certificate_status after))) in
      (
        sent.0,
        guarded (is_offline answers g || (size id == 0)) (not (answers.has_node id)) _ _ _
              (ground (arith, online g r, full)) (ground (arith, s.nodes id))
            ∙ sent.1,
      )
