-- ===== src/Gds/Directory.antt =====
-- Finding the directory node and its methods (opcua/client/qopcuagdsclient.cpp): resolveDirectoryNode
-- with its slot, resolveMethodNodes, and _q_handleResolveBrowsePathFinished.
use qtopcua.Prelude.{
  ℕ, Bool, true, false, not, ◌&&◌, ◌||◌, List, [], ◌∷◌, Option, none, some, ◌==◌, if◌then◌else◌,
  length, find, insert,
}
use qtopcua.Qt.Text.{Text, QString, size}
use qtopcua.Client.Resolve.{index_from}
use qtopcua.Gds.State.{
  namespace_of, if_there, Gds, Answers, Op, stop, act, put, ◌⨾◌, set_state, set_error, connected,
  directory_node_not_found, null, objects_folder, directory, create_node, resolve_browse_path,
  directory_name, elements_to_resolve,
}
use qtopcua.Gds.Registration.{find_registered_application, get_application, has_no_application_id}

-- "ns=0;i=85"
abbrev pub objects_folder_id : Text
objects_folder_id = b'n' ∷ b's' ∷ b'=' ∷ b'0' ∷ b';' ∷ b'i' ∷ b'=' ∷ b'8' ∷ b'5' ∷ []

-- What a resolved browse path brings: the names of the path, the status, and for each target
-- whether it is fully resolved and its node id.
pub record Resolved : Type 0 where
  pub path : List ℕ
  pub status_code : ℕ
  pub targets : List (Bool × QString)

-- The target of an answer for one name, where all tests hold but that of the name.
abbrev pub sole_target : Resolved → Option QString
sole_target answer = elim answer.targets [
  | [] ↦ none
  | t ∷ more ↦ elim more [
    | [] ↦ if answer.status_code == 0 && t.0 then some t.1 else none
    | u ∷ rest ↦ none
  ]
]

abbrev pub sole_name : Resolved → Option ℕ
sole_name answer = elim answer.path [
  | [] ↦ none
  | n ∷ more ↦ elim more [ [] ↦ some n | m ∷ rest ↦ none ]
]

module _ (answers : Answers) (gds_uri : Text) where
  -- `next` is what follows an accepted request.
  abbrev pub request_name : ℕ → Op → Op
  request_name name next g =
      (act (resolve_browse_path (namespace_of g.m_gds_namespace_index) name)
          ⨾ (if answers.accepts then next else set_error directory_node_not_found))
        g

  unfoldable pub resolve_directory_node : Op
  unfolding set_error
  resolve_directory_node g =
      if not g.m_client || not answers.is_connected
      then stop g
      else if not (answers.has_node (some objects_folder_id))
      then (put (λ h. record h { m_directory_node = null })
            ⨾ act (create_node (some objects_folder_id))
            ⨾ set_error directory_node_not_found)
          g
      else (put (λ h. record h {
        m_directory_node = objects_folder;
        m_gds_namespace_index = index_from 0 gds_uri answers.namespaces;
      })
            ⨾ act (create_node (some objects_folder_id))
            ⨾ λ h. elim h.m_gds_namespace_index [
              | none ↦ set_error directory_node_not_found h
              | some index ↦
                  (act (resolve_browse_path (namespace_of (some index)) directory_name)
                      ⨾ (if answers.accepts
                          then stop
                          else set_error directory_node_not_found
                            ⨾ put (λ i. record i { m_directory_node = null })))
                    h
            ])
          g

  -- The slot for QOpcUaClient::namespaceArrayUpdated.
  unfoldable pub namespace_array_updated : Op
  unfolding resolve_directory_node set_state
  namespace_array_updated = set_state connected ⨾ resolve_directory_node

  abbrev pub is_resolved : ℕ → Gds → Bool
  is_resolved name g = elim (find name g.m_directory_nodes) [
    | none ↦ false
    | some id ↦ not (size id == 0)
  ]

  -- The loop of resolveMethodNodes over the names that are left. The directory node exists.
  unfoldable pub resolve_names : List ℕ → Op
  unfolding set_error
  resolve_names [] = stop
  resolve_names (name ∷ names) =
      let rest = resolve_names names in
      λ g. (if is_resolved name g then rest else request_name name rest) g

  unfoldable pub resolve_method_nodes : Op
  unfolding resolve_names
  resolve_method_nodes = resolve_names elements_to_resolve

  -- What follows the tests of the target, and of the name.
  abbrev pub found_directory : Option QString → Op
  found_directory none g = set_error directory_node_not_found g
  found_directory (some id) g =
      (if answers.has_node id
          then act (create_node id)
            ⨾ put (λ h. record h { m_directory_node = directory })
            ⨾ resolve_method_nodes
          else act (create_node id) ⨾ set_error directory_node_not_found)
        g

  abbrev pub named_directory : Option ℕ → Resolved → Op
  named_directory none answer g = set_error directory_node_not_found g
  named_directory (some name) answer g =
      (if name == directory_name
          then found_directory (sole_target answer)
          else set_error directory_node_not_found)
        g

  -- The slot of the node of the objects folder.
  unfoldable pub directory_resolved : Resolved → Op
  unfolding resolve_method_nodes set_error if_there
  directory_resolved answer g = if_there g.m_directory_node (
      (put (λ h. record h { m_directory_node = null }) ⨾ named_directory (sole_name answer) answer)
        g)

abbrev pub contains : ℕ → List ℕ → Bool
contains n [] = false
contains n (m ∷ ms) = (m == n) || contains n ms

abbrev pub is_known : ℕ → Gds → Bool
is_known name g = elim (find name g.m_directory_nodes) [ none ↦ false | some id ↦ true ]

module _ (answers : Answers) where
  -- What follows when the last name is resolved.
  abbrev pub all_resolved : Op
  all_resolved g =
      if has_no_application_id g
      then find_registered_application answers g
      else get_application answers g

  -- What follows the tests of the target, and of the name.
  abbrev pub found_method : ℕ → Option QString → Op
  found_method name none g = set_error directory_node_not_found g
  found_method name (some id) g =
      (put (λ h. record h { m_directory_nodes = insert name id h.m_directory_nodes }) ⨾ λ h.
      (if length h.m_directory_nodes == length elements_to_resolve then all_resolved else stop) h)
        g

  abbrev pub named_method : Option ℕ → Resolved → Op
  named_method none answer g = set_error directory_node_not_found g
  named_method (some name) answer g =
      if is_known name g || not (contains name elements_to_resolve)
      then set_error directory_node_not_found g
      else found_method name (sole_target answer) g

  -- _q_handleResolveBrowsePathFinished
  unfoldable pub method_node_resolved : Resolved → Op
  unfolding set_error
  method_node_resolved answer = named_method (sole_name answer) answer
