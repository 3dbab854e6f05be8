-- ===== src/Gds/Reachable.antt =====
-- The states that the client of a discovery server gets into, event by event.
use qtopcua.Prelude.{
  ℕ, ◌≡◌, ◌<◌, refl, subst, ◌||◌, List, [], ◌∷◌, Option, some, ◌==◌, find-nil, inl, arith,
}
use qtopcua.Qt.Text.{Text, QString, units, text_eq}
use qtopcua.Qt.Api.{Qt}
use qtopcua.Gds.State.{
  failed_to_unregister_application, Gds, Answers, Ran, Op, set_error, FinishTimer,
  directory_node_id, touched, new_gds,
}
use qtopcua.Encoding.Records.{ApplicationRecord}
use qtopcua.Gds.Registration.{MethodResult, has_no_application_id, has_no_directory, is_offline}
use qtopcua.Gds.Certificates.{slots_of}
use qtopcua.Gds.Events.{
  gds_uri, Event, unregister_application, unregister_application_finished, dispatch, handlers,
  method_call_finished_slot, stopped, finish_timeout_slots, handle_event,
}
use qtopcua.Gds.Keeps.{
  After, Keeps, After-if, After-put, Keeps-seq, Keeps-stop, Keeps-act, Keeps-if, Keeps-times,
}
use qtopcua.Gds.Invariant.{IsWellFormed, Keeps-set_error, touched-IsWellFormed, Keeps-call}
use qtopcua.Gds.StartKeeps.{W, Keeps-start, Keeps-client_disconnected, Keeps-client_error}
use qtopcua.Gds.RegistrationKeeps.{
  Keeps-get_application_finished, Keeps-find_finished, Keeps-register_finished,
}
use qtopcua.Gds.DirectoryKeeps.{
  Keeps-namespaces, After-directory_resolved, Keeps-method_node_resolved,
}
use qtopcua.Gds.CertificatesKeeps.{
  Keeps-types_resolved, Keeps-groups_finished, Keeps-status_finished, Keeps-check, Keeps-trust_list,
  Keeps-types_updated, Keeps-finish, Keeps-trust_list_finished, Keeps-trust_list_read,
  Keeps-signing_finished, Keeps-finish_finished,
}

fails-unregister : Keeps W (set_error failed_to_unregister_application)
fails-unregister = Keeps-set_error _ (λ e. cc)

Keeps-unregister : (answers : Answers) → Keeps W (unregister_application answers)
unfolding unregister_application
Keeps-unregister answers = record {
  keeps = λ g w. After-if W (has_no_application_id g) _ _ ((Keeps-act _).keeps g w) (
      After-if W (is_offline answers g || has_no_directory g) _ _ (fails-unregister.keeps g w)
        ((Keeps-call answers _ _ _ (omega arith) (λ e. cc)).keeps g w));
}

Keeps-unregister_finished : (status : ℕ) → Keeps W (unregister_application_finished status)
unfolding unregister_application_finished
Keeps-unregister_finished status =
    Keeps-if (status == 0) (Keeps-seq (Keeps-act _) (Keeps-act _)) fails-unregister

-- Handlers for known names that keep IsWellFormed.
abbrev AreKept : List (ℕ × Op) → Type 0
AreKept [] = Unit
AreKept ((name, handler) ∷ handlers) = (name < 9) × Keeps W handler × AreKept handlers

Keeps-dispatch :
    (handlers : List (ℕ × Op)) (id : QString) → AreKept handlers → Keeps W (dispatch handlers id)
unfolding dispatch
Keeps-dispatch [] id h = record { keeps = λ g w. Keeps-stop.keeps g w }
Keeps-dispatch ((name, handler) ∷ handlers) id h = record {
  keeps = λ g w.
      let seen = touched-IsWellFormed name g h.0 w in
      After-if W (text_eq (units id) (units (directory_node_id name g))) _ _
        (h.1.keeps (touched name g) seen)
        ((Keeps-dispatch handlers id h.2).keeps (touched name g) seen);
}

stopped-W :
    (g : Gds) (timer : Option FinishTimer)
    → W g
    → g.m_certificate_finish_timer ≡ timer
    → W (record g { m_certificate_finish_timer = stopped g.m_certificate_finish_timer })
stopped-W g timer w e = record {
  has_error = w.has_error;
  names_known = w.names_known;
  names_unique = w.names_unique;
  has_index = w.has_index;
  has_timer = ground (arith, w.has_timer);
}

Keeps-finish_timeout : (answers : Answers) → Keeps W (finish_timeout_slots answers)
unfolding finish_timeout_slots
Keeps-finish_timeout answers = record {
  keeps = λ g w. After-put W _ _ g (
      (Keeps-times (slots_of g.m_certificate_finish_timer) (Keeps-finish answers)).keeps _
        (stopped-W g g.m_certificate_finish_timer w refl));
}

module _ ⦃qt : Qt⦄ where
  -- A node of the objects folder is only asked when the namespace is known.
  abbrev pub IsPossible : Event → Gds → Type 0
  IsPossible (Event.directory_resolved answer) g = (i : ℕ) × (g.m_gds_namespace_index ≡ some i)
  IsPossible event g = Unit

  Keeps-method_call :
      (answers : Answers) (id : QString) (result : MethodResult) (status : ℕ)
      → Keeps W (method_call_finished_slot answers id result status)
  unfolding method_call_finished_slot
  Keeps-method_call answers id result status = Keeps-dispatch (handlers answers result status) id (
    omega arith,
    Keeps-unregister_finished status,
    (
      omega arith,
      Keeps-finish_finished answers result status,
      (
        omega arith,
        Keeps-signing_finished result status,
        (
          omega arith,
          Keeps-status_finished answers result status,
          (
            omega arith,
            Keeps-groups_finished answers result status,
            (
              omega arith,
              Keeps-register_finished answers result status,
              (
                omega arith,
                Keeps-find_finished answers result status,
                (
                  omega arith,
                  Keeps-get_application_finished answers result status,
                  (omega arith, Keeps-trust_list_finished answers result status, tt),
                ),
              ),
            ),
          ),
        ),
      ),
    ),
  )

  After-event :
      (answers : Answers) (event : Event) (g : Gds)
      → W g
      → IsPossible event g
      → After W (handle_event answers event g)
  unfolding handle_event
  After-event answers Event.start g w p = (Keeps-start answers).keeps g w
  After-event answers Event.unregister g w p = (Keeps-unregister answers).keeps g w
  After-event answers Event.client_disconnected g w p =
      (Keeps-client_disconnected answers).keeps g w
  After-event answers (Event.client_error b) g w p = (Keeps-client_error b).keeps g w
  After-event answers Event.namespace_array_updated g w p =
      (Keeps-namespaces answers gds_uri).keeps g w
  After-event answers (Event.directory_resolved a) g w p =
      After-directory_resolved answers gds_uri a p.0 g w p.1
  After-event answers (Event.method_node_resolved a) g w p =
      (Keeps-method_node_resolved answers a).keeps g w
  After-event answers (Event.method_call_finished id result status) g w p =
      (Keeps-method_call answers id result status).keeps g w
  After-event answers (Event.certificate_types_resolved a) g w p =
      (Keeps-types_resolved answers a).keeps g w
  After-event answers (Event.certificate_types_updated attr) g w p =
      (Keeps-types_updated answers attr).keeps g w
  After-event answers (Event.trust_list_read attr) g w p = (Keeps-trust_list_read attr).keeps g w
  After-event answers Event.certificate_check_timeout g w p = (Keeps-check answers).keeps g w
  After-event answers Event.trust_list_timeout g w p = (Keeps-trust_list answers).keeps g w
  After-event answers Event.finish_timeout g w p = (Keeps-finish_timeout answers).keeps g w

  -- Each event meets its own answers.
  pub data Reachable : Gds → Type 0 where
    new : (backend url : Text) (app : ApplicationRecord) → Reachable (new_gds backend url app)
    next :
        (answers : Answers) (event : Event) (g : Gds) (r : Ran)
        → Reachable g
        → IsPossible event g
        → handle_event answers event g ≡ some r
        → Reachable r.gds

  new-W : (backend url : Text) (app : ApplicationRecord) → W (new_gds backend url app)
  new-W backend url app = record {
    has_error = inl (λ e. cc);
    names_known = λ name id e. absurd (ground (arith, e, find-nil {V = QString} name));
    names_unique = tt;
    has_index = inl (λ e. cc);
    has_timer = inl refl;
  }

  After-some : (o : Option Ran) (r : Ran) → After W o → o ≡ some r → W r.gds
  After-some o r h e = subst (After W) e h

  -- In every state that a discovery server client reaches from its constructor by calls and
  -- signals, where an answer for the directory only comes once its namespace is known: the state
  -- Error comes with an error, the map of the directory has names of elementsToResolve only and
  -- each once, a directory node comes with the namespace index, and a request id that is not empty
  -- comes with a timer that has a slot.
  pub Reachable-IsWellFormed : (g : Gds) → Reachable g → IsWellFormed g
  Reachable-IsWellFormed g (new backend url app) = new-W backend url app
  Reachable-IsWellFormed g (next answers event h r reached possible done) =
      After-some _ r (After-event answers event h (Reachable-IsWellFormed h reached) possible) done
