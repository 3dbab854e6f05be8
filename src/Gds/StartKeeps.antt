-- ===== src/Gds/StartKeeps.antt =====
-- Starting and losing the connection keeps IsWellFormed.
use qtopcua.Prelude.{refl, Bool, true, not, some, ◌==◌, Bool-cases, inl, inr, length}
use qtopcua.Qt.Text.{size}
use qtopcua.Gds.State.{
  connection_error, invalid_backend, invalid_endpoint, Gds, Answers, Op, set_error, connecting,
  backend_instantiated, idle,
}
use qtopcua.Gds.Start.{
  prepare_key, prepare_certificate, load_application_id, connect_client, start, client_disconnected,
  client_error, restart_with_credentials,
}
use qtopcua.Gds.Keeps.{
  Keeps, Keeps-seq, Keeps-stop, Keeps-act, Keeps-if, After-if, Keeps-put, Keeps-reads,
}
use qtopcua.Gds.Invariant.{
  IsWellFormed, IsWellFormed-same, Keeps-set_error, Keeps-set_state, no_directory-IsWellFormed,
}

abbrev pub W : Gds → Type 0
W = IsWellFormed

pub fails-connection : Keeps W (set_error connection_error)
fails-connection = Keeps-set_error connection_error (λ e. cc)

module _ (answers : Answers) where
  Keeps-prepare_key : {next : Op} → Keeps W next → Keeps W (prepare_key answers next)
  unfolding prepare_key
  Keeps-prepare_key h =
      Keeps-if answers.key_exists
        (Keeps-if (not answers.key_opens) fails-connection (
          Keeps-if (not answers.key_loads) fails-connection
            (Keeps-if (not answers.key_is_private) fails-connection h)))
        (Keeps-seq (Keeps-if answers.key_exists_then fails-connection Keeps-stop) (
          Keeps-if (not answers.key_opens) fails-connection (
            Keeps-if (not answers.key_resizes) fails-connection (
              Keeps-if (not answers.key_permissions_set) fails-connection
                (Keeps-seq (Keeps-act _) h)))))

  Keeps-prepare_certificate :
      {next : Op} → Keeps W next → Keeps W (prepare_certificate answers next)
  unfolding prepare_certificate
  Keeps-prepare_certificate h = Keeps-if answers.certificate_exists h (
      Keeps-seq (Keeps-if answers.certificate_exists_then fails-connection Keeps-stop) (
        Keeps-if (not answers.certificate_opens) fails-connection (
          Keeps-if (not answers.certificate_resizes) fails-connection (Keeps-seq (Keeps-act _) h))))

  Keeps-load : Keeps W (load_application_id answers)
  Keeps-load = Keeps-put _ (λ g w. elim (Bool-cases (size answers.stored_id == 0)) [
    | inl empty ↦ rw empty w
    | inr stored ↦ rw stored (IsWellFormed-same g _ w refl refl refl refl refl refl refl)
  ])

  Keeps-connect : Keeps W (connect_client answers)
  unfolding connect_client
  Keeps-connect = Keeps-seq (Keeps-set_state connecting (λ e. cc)) (
      Keeps-reads (λ g.
        Keeps-if (size (some g.m_endpoint_url) == 0) (Keeps-set_error invalid_endpoint (λ e. cc))
          (Keeps-prepare_key (Keeps-prepare_certificate (Keeps-seq Keeps-load (Keeps-act _))))))

  pub Keeps-start : Keeps W (start answers)
  unfolding start
  Keeps-start = record {
    keeps = λ g w.
        let fails = Keeps-set_error invalid_backend (λ e. cc) in
        let instantiated = Keeps-set_state backend_instantiated (λ e. cc) in
        let new : (h : Gds) → W h → W (record h { m_client = true }) =
          λ h v. IsWellFormed-same h _ v refl refl refl refl refl refl refl in
        After-if W (length g.m_backend == 0) _ _ (fails.keeps g w) (
          After-if W g.m_client _ _ (Keeps-connect.keeps g w) (
            After-if W answers.creates_client _ _
              ((Keeps-seq instantiated
                  (Keeps-seq (Keeps-act _) (Keeps-seq (Keeps-put _ new) Keeps-connect))).keeps
                g w)
              ((Keeps-seq instantiated (Keeps-seq (Keeps-act _) fails)).keeps g w)));
  }

  pub Keeps-client_disconnected : Keeps W (client_disconnected answers)
  unfolding client_disconnected
  Keeps-client_disconnected = Keeps-seq (Keeps-put _ no_directory-IsWellFormed) (
      Keeps-seq (Keeps-set_state idle (λ e. cc)) (
        Keeps-reads (λ g.
          Keeps-if g.m_restart_required
            (Keeps-seq
              (Keeps-put _ (λ h w. IsWellFormed-same h _ w refl refl refl refl refl refl refl))
              Keeps-start)
            Keeps-stop)))

pub Keeps-client_error : (invalid_url : Bool) → Keeps W (client_error invalid_url)
unfolding client_error
Keeps-client_error invalid_url =
    Keeps-if invalid_url (Keeps-set_error invalid_endpoint (λ e. cc)) fails-connection

pub Keeps-restart : Keeps W restart_with_credentials
unfolding restart_with_credentials
Keeps-restart = Keeps-seq (Keeps-act _) (
    Keeps-seq (Keeps-put _ (λ g w. IsWellFormed-same g _ w refl refl refl refl refl refl refl))
      (Keeps-act _))
