-- ===== src/Gds/Opening.antt =====
-- A new client of a discovery server (opcua/client/qopcuagdsclient.cpp), up to the question for its
-- application, with a server that has the directory.
use qtopcua.Prelude.{
  ℕ, ◌≡◌, refl, ap, ◌∙◌, true, false, not, ◌||◌, List, [], ◌∷◌, Option, none, some, ◌==◌,
  if◌then◌else◌, length, find, arith,
}
use qtopcua.Qt.Text.{Text, QString, size}
use qtopcua.Encoding.Records.{ApplicationRecord}
use qtopcua.Client.Resolve.{index_from}
use qtopcua.Gds.State.{
  connecting, connected, backend_instantiated, Gds, Answers, Ran, Op, stop, act, put, ◌⨾◌, new_gds,
  objects_folder, directory, directory_name, elements_to_resolve, set_state, create_client,
  connect_to_endpoint, create_node, resolve_browse_path, namespace_of, directory_node_not_found,
  if_there, set_error, null,
}
use qtopcua.Gds.Start.{start, connect_client, prepare_key, prepare_certificate, load_application_id}
use qtopcua.Gds.Directory.{
  Resolved, objects_folder_id, resolve_directory_node, namespace_array_updated, is_resolved,
  request_name, resolve_names, resolve_method_nodes, directory_resolved,
}
use qtopcua.Gds.Events.{gds_uri}
use qtopcua.Gds.Dispatched.{Becomes, Becomes-seq, Becomes-act, Becomes-acted, Becomes-changed}
use qtopcua.Gds.Serving.{Serves, goes-on, not-first}
use qtopcua.Gds.Registers.{chosen}

-- There are key and certificate files, no stored application id, and a namespace of the directory.
pub record Opens (index : ℕ) (answers : Answers) : Type 0 where
  pub serves : Serves answers
  pub creates : answers.creates_client ≡ true
  pub has_key : answers.key_exists ≡ true
  pub has_certificate : answers.certificate_exists ≡ true
  pub has_no_id : (size answers.stored_id == 0) ≡ true
  pub has_namespace : index_from 0 gds_uri answers.namespaces ≡ some index

Becomes-op : (op same : Op) (g h : Gds) → op ≡ same → Becomes (same g) h → Becomes (op g) h
Becomes-op op same g h e b = (b.0, ap (λ k. k g) e ∙ b.1)

Becomes-eq : (o : Option Ran) (g h : Gds) → g ≡ h → Becomes o g → Becomes o h
Becomes-eq o g h e b = (b.0, b.1 ∙ ap (λ j. some (record { gds = j; actions = b.0 })) e)

abbrev pub started : Gds → Gds
started g = record g { m_client = true; m_state = connecting }

abbrev pub resolved_to : ℕ → QString → Resolved
resolved_to name id = record { path = name ∷ []; status_code = 0; targets = (true, id) ∷ [] }

-- The state once the objects folder is asked for the directory.
abbrev pub asked : ℕ → Gds → Gds
asked index g = record g {
  m_state = connected;
  m_directory_node = objects_folder;
  m_gds_namespace_index = some index;
}

module _ (index : ℕ) (answers : Answers) (s : Opens index answers) where
  has-key : (next : Op) → prepare_key answers next ≡ next
  unfolding prepare_key
  has-key next =
      chosen answers.key_exists _ _ s.has_key
      ∙ goes-on answers.key_opens _ _ s.serves.key_opens
      ∙ goes-on answers.key_loads _ _ s.serves.key_loads
      ∙ goes-on answers.key_is_private _ _ s.serves.key_is_private

  has-certificate : (next : Op) → prepare_certificate answers next ≡ next
  unfolding prepare_certificate
  has-certificate next = chosen answers.certificate_exists _ _ s.has_certificate

  loads-none : (g : Gds) → Becomes (load_application_id answers g) g
  unfolding put
  loads-none g =
      Becomes-eq (load_application_id answers g) _ g
        (chosen (size answers.stored_id == 0) g _ s.has_no_id) (_, refl)

  connects :
      (g : Gds)
      → (size (some g.m_endpoint_url) == 0) ≡ false
      → Becomes (connect_client answers g) (record g { m_state = connecting })
  unfolding connect_client set_state
  connects g url =
      let h : Gds = record g { m_state = connecting } in
      let last = load_application_id answers ⨾ act connect_to_endpoint in
      Becomes-seq (set_state connecting) _ g h h (_, refl)
        (Becomes-op _ last h h
          (not-first (size (some g.m_endpoint_url) == 0) _ _ url
            ∙ has-key (prepare_certificate answers last)
            ∙ has-certificate last)
          (Becomes-seq (load_application_id answers) (act connect_to_endpoint) h h h (loads-none h)
            (Becomes-act connect_to_endpoint h)))

  pub starts :
      (backend url : Text) (app : ApplicationRecord)
      → (length backend == 0) ≡ false
      → (size (some url) == 0) ≡ false
      → Becomes (start answers (new_gds backend url app)) (started (new_gds backend url app))
  unfolding start set_state
  starts backend url app named addressed =
      let g = new_gds backend url app in
      let b : Gds = record g { m_state = backend_instantiated } in
      let c : Gds = record b { m_client = true } in
      let end = started g in
      let run =
        Becomes-seq (set_state backend_instantiated) _ g b end (_, refl)
          (Becomes-acted create_client _ b end
            (Becomes-changed (λ h. record h { m_client = true }) _ b end (connects c addressed))) in
      (
        run.0,
        not-first (length backend == 0) _ _ named
            ∙ chosen answers.creates_client _ _ s.creates
            ∙ run.1,
      )

  -- The request with the index that was looked up.
  asks-with :
      (o : Option ℕ) (g : Gds)
      → o ≡ some index
      → Becomes
          ((put (λ h. record h { m_directory_node = objects_folder; m_gds_namespace_index = o })
              ⨾ act (create_node (some objects_folder_id))
              ⨾ λ h. elim h.m_gds_namespace_index [
                | none ↦ set_error directory_node_not_found h
                | some i ↦
                    (act (resolve_browse_path (namespace_of (some i)) directory_name)
                        ⨾ (if answers.accepts
                            then stop
                            else set_error directory_node_not_found
                              ⨾ put (λ j. record j { m_directory_node = null })))
                      h
              ])
            g)
          (record g { m_directory_node = objects_folder; m_gds_namespace_index = some index })
  unfolding stop
  asks-with o g e =
      let h : Gds = record g {
        m_directory_node = objects_folder;
        m_gds_namespace_index = some index;
      } in
      rw e (
        Becomes-changed
          (λ i. record i { m_directory_node = objects_folder; m_gds_namespace_index = some index })
          _ g h
          (Becomes-acted (create_node (some objects_folder_id)) _ h h (
            Becomes-acted (resolve_browse_path (namespace_of (some index)) directory_name) _ h h
              (Becomes-op _ stop h h (chosen answers.accepts _ _ s.serves.accepted) (_, refl)))))

  pub asks-directory :
      (g : Gds)
      → g.m_client ≡ true
      → Becomes (namespace_array_updated answers gds_uri g) (asked index g)
  unfolding namespace_array_updated resolve_directory_node set_state
  asks-directory g client =
      let c : Gds = record g { m_state = connected } in
      let asks = asks-with (index_from 0 gds_uri answers.namespaces) c s.has_namespace in
      Becomes-seq (set_state connected) _ g c (asked index g) (_, refl)
        (
          asks.0,
          not-first (not g.m_client || not answers.is_connected) _ _
                (ground (arith, client, s.serves.online))
              ∙ goes-on (answers.has_node (some objects_folder_id)) _ _
                  (s.serves.nodes (some objects_folder_id))
              ∙ asks.1,
        )

  -- Every method of the directory is asked for.
  asks-names :
      (names : List ℕ) (g : Gds)
      → g.m_directory_nodes ≡ []
      → Becomes (resolve_names answers gds_uri names g) g
  unfolding resolve_names stop find
  asks-names [] g empty = (_, refl)
  asks-names (name ∷ names) g empty =
      let unknown : is_resolved answers gds_uri name g ≡ false = ground (arith, empty) in
      let rest = asks-names names g empty in
      Becomes-op
        (if is_resolved answers gds_uri name g
          then resolve_names answers gds_uri names
          else request_name answers gds_uri name (resolve_names answers gds_uri names))
        (request_name answers gds_uri name (resolve_names answers gds_uri names)) g g
        (not-first (is_resolved answers gds_uri name g) _ _ unknown)
        (Becomes-acted _ _ g g (
          Becomes-op _ (resolve_names answers gds_uri names) g g
            (chosen answers.accepts _ _ s.serves.accepted) rest))

  pub finds-directory :
      (id : QString) (g : Gds)
      → g.m_directory_nodes ≡ []
      → Becomes
          (directory_resolved answers gds_uri (resolved_to directory_name id) (asked index g))
          (record (asked index g) { m_directory_node = directory })
  unfolding directory_resolved if_there resolve_method_nodes
  finds-directory id g empty =
      let c : Gds = record (asked index g) { m_directory_node = null } in
      let d : Gds = record (asked index g) { m_directory_node = directory } in
      Becomes-changed (λ h. record h { m_directory_node = null }) _ (asked index g) d
        (Becomes-op _
          (act (create_node id)
            ⨾ put (λ h. record h { m_directory_node = directory })
            ⨾ resolve_method_nodes answers gds_uri)
          c d (chosen (answers.has_node id) _ _ (s.serves.nodes id))
          (Becomes-acted (create_node id) _ c d (
            Becomes-changed (λ h. record h { m_directory_node = directory }) _ c d
              (asks-names elements_to_resolve d empty))))
