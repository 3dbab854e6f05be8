-- ===== src/Gds/RegistrationKeeps.antt =====
-- The registration of the application keeps IsWellFormed.
use qtopcua.Prelude.{ℕ, refl, Bool, not, ◌&&◌, ◌||◌, [], none, ◌==◌, if◌then◌else◌, arith}
use qtopcua.Qt.Text.{size, units, text_eq}
use qtopcua.Qt.Api.{Qt}
use qtopcua.Encoding.State.{of_buffer}
use qtopcua.Encoding.Decoder.{Outcome, done, failed, overrun}
use qtopcua.Encoding.Records.{ApplicationRecord}
use qtopcua.Encoding.Objects.{decode_application_record, encode_application_record}
use qtopcua.Gds.State.{
  failed_to_register_application, failed_to_get_certificate_status, Gds, Answers, Op, stop, put,
  set_error,
}
use qtopcua.Gds.Registration.{
  MethodResult, bad_not_found, bad_user_access_denied, has_no_application_id, has_no_directory,
  is_offline, get_application, find_registered_application, get_certificate_groups, record_type_id,
  with_record, get_application_finished, register_application, find_applications_finished,
  register_application_finished,
}
use qtopcua.Gds.Keeps.{
  After, Keeps, After-if, Keeps-seq, Keeps-stop, Keeps-act, Keeps-put, Keeps-if,
}
use qtopcua.Gds.Invariant.{IsWellFormed-same, Keeps-set_error, Keeps-call}
use qtopcua.Gds.StartKeeps.{W, Keeps-restart}

pub fails-registration : Keeps W (set_error failed_to_register_application)
fails-registration = Keeps-set_error _ (λ e. cc)

pub fails-status : Keeps W (set_error failed_to_get_certificate_status)
fails-status = Keeps-set_error _ (λ e. cc)

-- The guards that every method call has.
pub After-guarded :
    (offline no_directory : Bool) (fails call : Op) (g : Gds)
    → W g
    → Keeps W fails
    → Keeps W call
    → After W (if offline then stop g else if no_directory then fails g else call g)
After-guarded offline no_directory fails call g w f c =
    After-if W offline _ _ (Keeps-stop.keeps g w)
      (After-if W no_directory _ _ (f.keeps g w) (c.keeps g w))

module _ (answers : Answers) where
  pub Keeps-get_application : Keeps W (get_application answers)
  unfolding get_application
  Keeps-get_application = record {
    keeps = λ g w.
        After-guarded (is_offline answers g) (has_no_directory g) _ _ g w fails-registration
          (Keeps-call answers _ _ _ (omega arith) (λ e. cc));
  }

  pub Keeps-find_registered : Keeps W (find_registered_application answers)
  unfolding find_registered_application
  Keeps-find_registered = record {
    keeps = λ g w.
        After-guarded (is_offline answers g) (has_no_directory g) _ _ g w fails-registration
          (Keeps-call answers _ _ _ (omega arith) (λ e. cc));
  }

  pub Keeps-get_groups : Keeps W (get_certificate_groups answers)
  unfolding get_certificate_groups
  Keeps-get_groups = record {
    keeps = λ g w.
        After-guarded (is_offline answers g) (has_no_directory g) _ _ g w fails-status
          (Keeps-call answers _ _ _ (omega arith) (λ e. cc));
  }

-- Another application record.
Keeps-record : (f : Gds → ApplicationRecord) → Keeps W (put (λ g. record g { m_app_record = f g }))
Keeps-record f = Keeps-put _ (λ g w. IsWellFormed-same g _ w refl refl refl refl refl refl refl)

module _ ⦃qt : Qt⦄ (answers : Answers) where
  After-decoded :
      (o : Outcome ApplicationRecord) (next : ApplicationRecord → Op) (g : Gds)
      → W g
      → ((r : ApplicationRecord) → Keeps W (next r))
      → After W (elim o [
        | done r c ↦ next r g
        | failed c ↦ set_error failed_to_register_application g
        | overrun ↦ none
      ])
  After-decoded (done r c) next g w h = (h r).keeps g w
  After-decoded (failed c) next g w h = fails-registration.keeps g w
  After-decoded overrun next g w h = tt

  After-with_record :
      (result : MethodResult) (next : ApplicationRecord → Op) (g : Gds)
      → W g
      → ((r : ApplicationRecord) → Keeps W (next r))
      → After W (with_record answers result next g)
  After-with_record result next g w h =
      After-if W (not (text_eq (units result.type_id) (record_type_id answers g))) _ _
        (fails-registration.keeps g w)
        (After-decoded (decode_application_record (of_buffer (units result.body))) next g w h)

  pub Keeps-get_application_finished :
      (result : MethodResult) (status : ℕ)
      → Keeps W (get_application_finished answers result status)
  unfolding get_application_finished
  Keeps-get_application_finished result status = record {
    keeps = λ g w.
        After-if W (status == bad_not_found) _ _
          ((Keeps-seq (Keeps-record _) (Keeps-seq (Keeps-act _) Keeps-restart)).keeps g w)
          (After-if W (not (status == 0)) _ _ (fails-registration.keeps g w) (
            After-if W (size result.type_id == 0) _ _ ((Keeps-get_groups answers).keeps g w) (
              After-with_record result _ g w
                (λ r. Keeps-seq (Keeps-record _) (Keeps-get_groups answers)))));
  }

  pub Keeps-register : Keeps W (register_application answers)
  unfolding register_application
  Keeps-register = record {
    keeps = λ g w.
        After-if W (not (has_no_application_id g) || is_offline answers g) _ _
          (Keeps-stop.keeps g w)
          (After-if W (has_no_directory g) _ _ (fails-registration.keeps g w) (
            After-if W (not (encode_application_record g.m_app_record (of_buffer [])).0) _ _
              (fails-registration.keeps g w)
              ((Keeps-call answers _ _ _ (omega arith) (λ e. cc)).keeps g w)));
  }

  pub Keeps-find_finished :
      (result : MethodResult) (status : ℕ)
      → Keeps W (find_applications_finished answers result status)
  unfolding find_applications_finished
  Keeps-find_finished result status = record {
    keeps = λ g w. After-if W (not (status == 0)) _ _ (fails-registration.keeps g w) (
        After-if W (size result.type_id == 0) _ _ (Keeps-register.keeps g w) (
          After-with_record result _ g w
            (λ r. Keeps-seq (Keeps-record _) (Keeps-get_groups answers))));
  }

pub Keeps-register_finished :
    (answers : Answers) (result : MethodResult) (status : ℕ)
    → Keeps W (register_application_finished answers result status)
unfolding register_application_finished
Keeps-register_finished answers result status =
    Keeps-if (status == 0)
      (Keeps-seq (Keeps-record _) (Keeps-seq (Keeps-act _) (Keeps-get_groups answers)))
      (Keeps-if (status == bad_user_access_denied && answers.is_anonymous) Keeps-restart
        fails-registration)
