-- ===== src/Gds/CertificatesKeeps.antt =====
-- The certificate and the trust list keep IsWellFormed.
use qtopcua.Prelude.{
  int_max, ℕ, ◌*◌, ltb, ◌≡◌, ◌≤◌, refl, ◌⊎◌, Bool, true, false, not, ◌||◌, List, [], ◌∷◌, Option,
  none, some, ◌==◌, inl, inr, arith,
}
use qtopcua.Qt.Text.{Text, Bytes, QString, size}
use qtopcua.Nodes.Node.{value_attribute}
use qtopcua.Gds.State.{
  failed_to_get_certificate_status, failed_to_get_certificate, Gds, Answers, Ran, put, ◌⨾◌,
  set_error, certificate_types_name, FinishTimer,
}
use qtopcua.Gds.Registration.{MethodResult, has_no_directory, is_offline}
use qtopcua.Gds.Directory.{Resolved, sole_name, sole_target}
use qtopcua.Gds.Certificates.{
  bad_nothing_to_do, get_certificate_types, certificate_types_resolved, resolve_certificate_types,
  get_certificate_groups_finished, get_certificate_status, start_certificate_request,
  get_certificate_status_finished, certificate_check_timeout, update_trust_list, registration_done,
  certificate_types_updated, finish_certificate_request, get_trust_list_finished, trust_list_read,
  slots_of, start_signing_request_finished, issued, store_files, retry, named_types,
  finish_request_finished,
}
use qtopcua.Gds.Keeps.{
  After, Keeps, After-if, Keeps-seq, Keeps-stop, Keeps-act, Keeps-put, Keeps-if,
}
use qtopcua.Gds.Invariant.{IsWellFormed-same, Keeps-set_error, Keeps-set_state, Keeps-call}
use qtopcua.Gds.StartKeeps.{W, fails-connection}
use qtopcua.Gds.RegistrationKeeps.{fails-status}

fails-certificate : Keeps W (set_error failed_to_get_certificate)
fails-certificate = Keeps-set_error _ (λ e. cc)

-- Members that IsWellFormed does not read.
Keeps-types_node : (b : Bool) → Keeps W (put (λ g. record g { m_certificate_types_node = b }))
Keeps-types_node b = Keeps-put _ (λ g w. IsWellFormed-same g _ w refl refl refl refl refl refl refl)

Keeps-types_id : (id : QString) → Keeps W (put (λ g. record g { m_certificate_types_node_id = id }))
Keeps-types_id id = Keeps-put _ (λ g w. IsWellFormed-same g _ w refl refl refl refl refl refl refl)

Keeps-group_node :
    (group : Option Text) → Keeps W (put (λ g. record g { m_certificate_group_node = group }))
Keeps-group_node group =
    Keeps-put _ (λ g w. IsWellFormed-same g _ w refl refl refl refl refl refl refl)

Keeps-groups :
    (groups : List Text) → Keeps W (put (λ g. record g { m_certificate_groups = groups }))
Keeps-groups groups =
    Keeps-put _ (λ g w. IsWellFormed-same g _ w refl refl refl refl refl refl refl)

Keeps-trust_node : (b : Bool) → Keeps W (put (λ g. record g { m_trust_list_node = b }))
Keeps-trust_node b = Keeps-put _ (λ g w. IsWellFormed-same g _ w refl refl refl refl refl refl refl)

Keeps-timers :
    (f : Gds → Bool × Bool)
    → Keeps W (
        put (λ g. record g { m_check_timer_active = (f g).0; m_trust_list_timer_active = (f g).1 }))
Keeps-timers f = Keeps-put _ (λ g w. IsWellFormed-same g _ w refl refl refl refl refl refl refl)

After-first {κ} :
    {A : Type κ} (xs : List A) (x : Option Ran) (y : A → List A → Option Ran)
    → After W x
    → ((a : A) (as' : List A) → After W (y a as'))
    → After W (elim xs [ [] ↦ x | a ∷ more ↦ y a more ])
After-first [] x y h k = h
After-first (a ∷ more) x y h k = k a more

After-maybe {κ} :
    {A : Type κ} (o : Option A) (x : Option Ran) (y : A → Option Ran)
    → After W x
    → ((a : A) → After W (y a))
    → After W (elim o [ none ↦ x | some a ↦ y a ])
After-maybe none x y h k = h
After-maybe (some a) x y h k = k a

module _ (answers : Answers) where
  Keeps-types : Keeps W (get_certificate_types answers)
  unfolding get_certificate_types
  Keeps-types = record {
    keeps = λ g w.
        After-if W (is_offline answers g || size g.m_certificate_types_node_id == 0) _ _
          (fails-status.keeps g w)
          (After-if W (not (answers.has_node g.m_certificate_types_node_id)) _ _
            ((Keeps-seq (Keeps-types_node false) (Keeps-seq (Keeps-act _) fails-status)).keeps g w)
            ((Keeps-seq (Keeps-types_node true) (
                Keeps-seq (Keeps-act _) (
                  Keeps-seq (Keeps-act _)
                    (Keeps-if answers.accepts Keeps-stop fails-status)))).keeps
              g w));
  }

  Keeps-target :
      (target : Option QString)
      → Keeps W (elim target [
        | none ↦ set_error failed_to_get_certificate_status
        | some id ↦
            put (λ g. record g { m_certificate_types_node_id = id }) ⨾ get_certificate_types answers
      ])
  Keeps-target none = fails-status
  Keeps-target (some id) = Keeps-seq (Keeps-types_id id) Keeps-types

  Keeps-named : (named : Option ℕ) (answer : Resolved) → Keeps W (named_types answers named answer)
  Keeps-named none answer = fails-status
  Keeps-named (some name) answer =
      Keeps-if (name == certificate_types_name) (Keeps-target (sole_target answer)) fails-status

  pub Keeps-types_resolved :
      (answer : Resolved) → Keeps W (certificate_types_resolved answers answer)
  unfolding certificate_types_resolved
  Keeps-types_resolved answer = Keeps-named (sole_name answer) answer

  Keeps-resolve_types : Keeps W (resolve_certificate_types answers)
  unfolding resolve_certificate_types
  Keeps-resolve_types = record {
    keeps = λ g w. After-if W (is_offline answers g) _ _ (fails-status.keeps g w) (
        After-first g.m_certificate_groups _ _ (fails-status.keeps g w) (λ group groups.
          After-if W (not (answers.has_node (some group))) _ _
            ((Keeps-seq (Keeps-group_node none) (Keeps-seq (Keeps-act _) fails-status)).keeps g w)
            ((Keeps-seq (Keeps-group_node (some group)) (
                Keeps-seq (Keeps-act _) (
                  Keeps-seq (Keeps-act _)
                    (Keeps-if answers.accepts Keeps-stop fails-status)))).keeps
              g w)));
  }

  pub Keeps-groups_finished :
      (result : MethodResult) (status : ℕ)
      → Keeps W (get_certificate_groups_finished answers result status)
  unfolding get_certificate_groups_finished
  Keeps-groups_finished result status =
      Keeps-if (not (status == 0)) fails-status
        (Keeps-seq (Keeps-groups result.strings) (Keeps-seq (Keeps-act _) Keeps-resolve_types))

  Keeps-get_status : Keeps W (get_certificate_status answers)
  unfolding get_certificate_status
  Keeps-get_status = record {
    keeps = λ g w. After-if W (is_offline answers g) _ _ (Keeps-stop.keeps g w) (
        After-if W (has_no_directory g) _ _ (fails-status.keeps g w) (
          After-first g.m_certificate_groups _ _ (fails-status.keeps g w)
            (λ group groups. (Keeps-call answers _ _ _ (omega arith) (λ e. cc)).keeps g w)));
  }

  Keeps-request : Keeps W (start_certificate_request answers)
  unfolding start_certificate_request
  Keeps-request = record {
    keeps = λ g w. After-if W (is_offline answers g) _ _ (Keeps-stop.keeps g w) (
        After-if W (has_no_directory g) _ _ (fails-status.keeps g w) (
          After-if W (not answers.key_opens) _ _ (fails-connection.keeps g w) (
            After-if W (not answers.key_loads) _ _ (fails-connection.keeps g w) (
              After-if W (not answers.key_is_private) _ _ (fails-connection.keeps g w)
                ((Keeps-call answers _ _ _ (omega arith) (λ e. cc)).keeps g w)))));
  }

  pub Keeps-status_finished :
      (result : MethodResult) (status : ℕ)
      → Keeps W (get_certificate_status_finished answers result status)
  unfolding get_certificate_status_finished
  Keeps-status_finished result status =
      Keeps-if (not (status == 0)) fails-status
        (Keeps-if result.bool (Keeps-seq (Keeps-act _) Keeps-request) Keeps-stop)

  pub Keeps-check : Keeps W (certificate_check_timeout answers)
  unfolding certificate_check_timeout
  Keeps-check = Keeps-if answers.certificate_is_null Keeps-stop (
      Keeps-if (answers.certificate_is_self_signed || answers.certificate_is_due)
        (Keeps-seq (Keeps-act _) Keeps-request) Keeps-get_status)

  pub Keeps-trust_list : Keeps W (update_trust_list answers)
  unfolding update_trust_list
  Keeps-trust_list = record {
    keeps = λ g w. After-if W (is_offline answers g) _ _ (Keeps-stop.keeps g w) (
        After-maybe g.m_certificate_group_node _ _ (Keeps-stop.keeps g w)
          (λ group. (Keeps-call answers _ _ _ (omega arith) (λ e. cc)).keeps g w));
  }

  pub Keeps-types_updated : (attr : ℕ) → Keeps W (certificate_types_updated answers attr)
  unfolding certificate_types_updated registration_done
  Keeps-types_updated attr = Keeps-seq (Keeps-set_state _ (λ e. cc)) (
      Keeps-seq (Keeps-act _) (
        Keeps-seq (Keeps-timers (λ g. (true, g.m_trust_list_timer_active))) (
          Keeps-seq Keeps-check
            (Keeps-seq (Keeps-timers (λ g. (g.m_check_timer_active, true))) Keeps-trust_list))))

  pub Keeps-finish : Keeps W (finish_certificate_request answers)
  unfolding finish_certificate_request
  Keeps-finish = record {
    keeps = λ g w. After-if W (is_offline answers g) _ _ (Keeps-stop.keeps g w) (
        After-if W (size g.m_certificate_request_id == 0) _ _ (fails-status.keeps g w)
          ((Keeps-call answers _ _ _ (omega arith) (λ e. cc)).keeps g w));
  }

  pub Keeps-trust_list_finished :
      (result : MethodResult) (status : ℕ) → Keeps W (get_trust_list_finished answers result status)
  unfolding get_trust_list_finished
  Keeps-trust_list_finished result status =
      Keeps-if (not (status == 0) || size result.string == 0) fails-certificate (
        Keeps-if (not (answers.has_node result.string))
          (Keeps-seq (Keeps-trust_node false) (Keeps-seq (Keeps-act _) fails-status))
          (Keeps-seq (Keeps-trust_node true) (
            Keeps-seq (Keeps-act _)
              (Keeps-seq (Keeps-act _) (Keeps-if answers.accepts Keeps-stop fails-status)))))

pub Keeps-trust_list_read : (attr : ℕ) → Keeps W (trust_list_read attr)
unfolding trust_list_read
Keeps-trust_list_read attr = Keeps-if (attr == value_attribute) (Keeps-act _) Keeps-stop

Keeps-timer :
    (f : Gds → QString) (timer : Gds → Option FinishTimer)
    → ((g : Gds) → W g → (size (f g) ≡ 0) ⊎ (1 ≤ slots_of (timer g)))
    → Keeps W (
        put
          (λ g. record g { m_certificate_request_id = f g; m_certificate_finish_timer = timer g }))
Keeps-timer f timer h = Keeps-put _ (λ g w. record {
  has_error = w.has_error;
  names_known = w.names_known;
  names_unique = w.names_unique;
  has_index = w.has_index;
  has_timer = h g w;
})

pub Keeps-signing_finished :
    (result : MethodResult) (status : ℕ) → Keeps W (start_signing_request_finished result status)
unfolding start_signing_request_finished
Keeps-signing_finished result status =
    Keeps-if (not (status == 0)) fails-certificate (Keeps-timer _ _ (λ g w. inr (omega arith)))

module _ (answers : Answers) where
  Keeps-issued : (files : Option (Bytes × Bytes)) → Keeps W (store_files answers files)
  Keeps-issued none = fails-certificate
  Keeps-issued (some files) = Keeps-if (not answers.certificate_opens) fails-certificate (
      Keeps-seq (Keeps-act _) (
        Keeps-if (not answers.certificate_is_written || not answers.issuers_open) fails-certificate
          (Keeps-seq (Keeps-act _)
            (Keeps-if (not answers.issuers_are_written) fails-certificate (Keeps-act _)))))

  After-retry :
      (timer : Option FinishTimer) (g : Gds)
      → W g
      → g.m_certificate_finish_timer ≡ timer
      → After W (retry timer g)
  unfolding put
  After-retry none g w e = tt
  After-retry (some timer) g w e = After-if W (ltb int_max (timer.interval * 2)) _ _ tt (record {
    has_error = w.has_error;
    names_known = w.names_known;
    names_unique = w.names_unique;
    has_index = w.has_index;
    has_timer = ground (arith, w.has_timer, e);
  })

  pub Keeps-finish_finished :
      (result : MethodResult) (status : ℕ) → Keeps W (finish_request_finished answers result status)
  unfolding finish_request_finished
  Keeps-finish_finished result status = record {
    keeps = λ g w.
        After-if W (status == bad_nothing_to_do) _ _
          (After-retry g.m_certificate_finish_timer g w refl)
          (After-if W (not (status == 0)) _ _ (fails-certificate.keeps g w) (
            (Keeps-seq
                (Keeps-timer (λ h. none) (λ h. h.m_certificate_finish_timer) (λ h v. inl refl))
                (Keeps-issued (issued result.list))).keeps
              g w));
  }
