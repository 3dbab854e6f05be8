-- ===== src/Gds/DirectoryKeeps.antt =====
-- Finding the directory node and its methods keeps IsWellFormed.
use qtopcua.Prelude.{
  ℕ, ◌≡◌, ◌<◌, true, not, ◌||◌, List, [], ◌∷◌, Option, none, some, ◌==◌, if◌then◌else◌, length,
  Bool-cases, inl, inr, arith,
}
use qtopcua.Qt.Text.{Text, QString}
use qtopcua.Client.Resolve.{index_from}
use qtopcua.Gds.State.{
  directory_node_not_found, Gds, Answers, Op, stop, act, put, ◌⨾◌, set_error, null, objects_folder,
  directory, directory_name, resolve_browse_path, elements_to_resolve, namespace_of,
}
use qtopcua.Gds.Registration.{has_no_application_id}
use qtopcua.Gds.Directory.{
  objects_folder_id, Resolved, sole_name, sole_target, resolve_directory_node,
  namespace_array_updated, is_resolved, resolve_names, resolve_method_nodes, directory_resolved,
  contains, is_known, all_resolved, method_node_resolved, found_directory, named_directory,
  found_method, named_method,
}
use qtopcua.Gds.Keeps.{
  After, Keeps, After-if, After-put, After-act, Keeps-seq, Keeps-stop, Keeps-act, Keeps-put,
  Keeps-if, Keeps-reads, After-if_there,
}
use qtopcua.Gds.Invariant.{
  Keeps-set_error, Keeps-set_state, without_directory-IsWellFormed, known-IsWellFormed,
}
use qtopcua.Gds.StartKeeps.{W}
use qtopcua.Gds.RegistrationKeeps.{Keeps-get_application, Keeps-find_registered}

fails-directory : Keeps W (set_error directory_node_not_found)
fails-directory = Keeps-set_error _ (λ e. cc)

contains-lt : (name : ℕ) → contains name elements_to_resolve ≡ true → name < 9
contains-lt name h = ground arith

module _ (answers : Answers) (gds_uri : Text) where
  Keeps-sent :
      (index : Option ℕ)
      → Keeps W (λ h. elim index [
        | none ↦ set_error directory_node_not_found h
        | some i ↦
            (act (resolve_browse_path (namespace_of (some i)) directory_name)
                ⨾ (if answers.accepts
                    then stop
                    else set_error directory_node_not_found
                      ⨾ put (λ j. record j { m_directory_node = null })))
              h
      ])
  Keeps-sent none = record { keeps = fails-directory.keeps }
  Keeps-sent (some i) = record {
    keeps = λ g w.
        (Keeps-seq (Keeps-act _) (
            Keeps-if answers.accepts Keeps-stop (
              Keeps-seq fails-directory (
                Keeps-put _ (λ h v.
                  without_directory-IsWellFormed h null h.m_gds_namespace_index (λ e. cc)
                    v))))).keeps
          g w;
  }

  Keeps-resolve_directory : Keeps W (resolve_directory_node answers gds_uri)
  unfolding resolve_directory_node
  Keeps-resolve_directory = record {
    keeps = λ g w.
        After-if W (not g.m_client || not answers.is_connected) _ _ (Keeps-stop.keeps g w) (
          After-if W (not (answers.has_node (some objects_folder_id))) _ _
            ((Keeps-seq
                (Keeps-put _ (λ h v.
                  without_directory-IsWellFormed h null h.m_gds_namespace_index (λ e. cc) v))
                (Keeps-seq (Keeps-act _) fails-directory)).keeps
              g w)
            ((Keeps-seq
                (Keeps-put _ (λ h v.
                  without_directory-IsWellFormed h objects_folder
                    (index_from 0 gds_uri answers.namespaces) (λ e. cc) v))
                (Keeps-seq (Keeps-act _)
                  (Keeps-reads (λ h. Keeps-sent h.m_gds_namespace_index)))).keeps
              g w));
  }

  pub Keeps-namespaces : Keeps W (namespace_array_updated answers gds_uri)
  unfolding namespace_array_updated
  Keeps-namespaces = Keeps-seq (Keeps-set_state _ (λ e. cc)) Keeps-resolve_directory

  Keeps-request :
      (index : Option ℕ) (name : ℕ) (next : Op)
      → Keeps W next
      → Keeps W (
          act (resolve_browse_path (namespace_of index) name)
          ⨾ (if answers.accepts then next else set_error directory_node_not_found))
  Keeps-request index name next h =
      Keeps-seq (Keeps-act _) (Keeps-if answers.accepts h fails-directory)

  Keeps-names : (names : List ℕ) → Keeps W (resolve_names answers gds_uri names)
  unfolding resolve_names
  Keeps-names [] = Keeps-stop
  Keeps-names (name ∷ names) = Keeps-reads (λ g.
      Keeps-if (is_resolved answers gds_uri name g) (Keeps-names names)
        (Keeps-reads (λ h. Keeps-request h.m_gds_namespace_index name _ (Keeps-names names))))

  found-W :
      (i : ℕ) (g : Gds)
      → W g
      → g.m_gds_namespace_index ≡ some i
      → W (record g { m_directory_node = directory })
  found-W i g w e = record {
    has_error = w.has_error;
    names_known = w.names_known;
    names_unique = w.names_unique;
    has_index = inr (i, e);
    has_timer = w.has_timer;
  }

  -- What follows the name of the answer.
  After-target :
      (target : Option QString) (i : ℕ) (g : Gds)
      → W g
      → g.m_gds_namespace_index ≡ some i
      → After W (found_directory answers gds_uri target g)
  unfolding resolve_method_nodes
  After-target none i g w e = fails-directory.keeps g w
  After-target (some id) i g w e = elim (Bool-cases (answers.has_node id)) [
    | inl has ↦ rw has (
        After-act W _ _ g
          (After-put W _ _ g ((Keeps-names elements_to_resolve).keeps _ (found-W i g w e))))
    | inr missing ↦ rw missing ((Keeps-seq (Keeps-act _) fails-directory).keeps g w)
  ]

  After-named :
      (named : Option ℕ) (answer : Resolved) (i : ℕ) (g : Gds)
      → W g
      → g.m_gds_namespace_index ≡ some i
      → After W (named_directory answers gds_uri named answer g)
  After-named none answer i g w e = fails-directory.keeps g w
  After-named (some name) answer i g w e = elim (Bool-cases (name == directory_name)) [
    | inl right ↦ rw right (After-target (sole_target answer) i g w e)
    | inr wrong ↦ rw wrong (fails-directory.keeps g w)
  ]

  pub After-directory_resolved :
      (answer : Resolved) (i : ℕ) (g : Gds)
      → W g
      → g.m_gds_namespace_index ≡ some i
      → After W (directory_resolved answers gds_uri answer g)
  unfolding directory_resolved
  After-directory_resolved answer i g w e =
      let forgotten : Gds = record g { m_directory_node = null } in
      After-if_there W g.m_directory_node _ (
        After-put W _ _ g (
          After-named (sole_name answer) answer i forgotten
            (without_directory-IsWellFormed g null g.m_gds_namespace_index (λ e'. cc) w) e))

module _ (answers : Answers) where
  Keeps-all_resolved : Keeps W (all_resolved answers)
  Keeps-all_resolved = record {
    keeps = λ g w.
        After-if W (has_no_application_id g) _ _ ((Keeps-find_registered answers).keeps g w)
          ((Keeps-get_application answers).keeps g w);
  }

  After-found :
      (name : ℕ) (target : Option QString) (g : Gds)
      → name < 9
      → W g
      → After W (found_method answers name target g)
  After-found name none g known w = fails-directory.keeps g w
  After-found name (some id) g known w = After-put W _ _ g (
      (Keeps-reads (λ h.
          Keeps-if (length h.m_directory_nodes == length elements_to_resolve) Keeps-all_resolved
            Keeps-stop)).keeps
        _ (known-IsWellFormed g name id known w))

  After-method :
      (named : Option ℕ) (answer : Resolved) (g : Gds)
      → W g
      → After W (named_method answers named answer g)
  After-method none answer g w = fails-directory.keeps g w
  After-method (some name) answer g w =
      elim (Bool-cases (is_known name g || not (contains name elements_to_resolve))) [
        | inl bad ↦ rw bad (fails-directory.keeps g w)
        | inr good ↦
            let within : contains name elements_to_resolve ≡ true = ground (arith, good) in
            rw good (After-found name (sole_target answer) g (contains-lt name within) w)
      ]

  pub Keeps-method_node_resolved :
      (answer : Resolved) → Keeps W (method_node_resolved answers answer)
  unfolding method_node_resolved
  Keeps-method_node_resolved answer = record {
    keeps = λ g w. After-method (sole_name answer) answer g w;
  }
