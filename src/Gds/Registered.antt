-- ===== src/Gds/Registered.antt =====
-- A new client of a discovery server (opcua/client/qopcuagdsclient.cpp) that gets its application
-- registered.
use qtopcua.Prelude.{
  ℕ, zero, suc, ◌≡◌, ◌<◌, refl, ◌∙◌, true, false, List, [], ◌∷◌, ◌++◌, some, ◌==◌, length, Map,
  find, insert, arith,
}
use qtopcua.Qt.Text.{Text, QString, size}
use qtopcua.Qt.Api.{Qt}
use qtopcua.Encoding.Records.{ApplicationRecord}
use qtopcua.Encoding.State.{of_buffer}
use qtopcua.Encoding.Objects.{encode_application_record}
use qtopcua.Gds.State.{
  State, no_error, Gds, Answers, Ran, stop, put, ◌⨾◌, new_gds, directory, directory_name,
  find_applications_name, text, failed_to_register_application,
}
use qtopcua.Gds.Directory.{all_resolved, method_node_resolved}
use qtopcua.Gds.Registration.{
  MethodResult, has_no_application_id, has_no_directory, is_offline, find_registered_application,
}
use qtopcua.Gds.Calls.{guarded}
use qtopcua.Gds.Events.{Event, handle_event}
use qtopcua.Gds.Dispatched.{IsReady, AreDistinct, Becomes, Becomes-seq, Becomes-changed}
use qtopcua.Gds.Serving.{Serves, calls, online, has-directory}
use qtopcua.Gds.Registers.{run_events, registration, registers, chosen}
use qtopcua.Gds.Opening.{
  Opens, started, asked, resolved_to, starts, asks-directory, finds-directory,
}

-- The map of the directory with its first methods.
abbrev entries : (ℕ → QString) → ℕ → Map QString
entries ids zero = []
entries ids (suc k) = entries ids k ++ ((k, ids k) ∷ [])

entries-known :
    (ids : ℕ → QString) (name : ℕ) → name < 9 → find name (entries ids 9) ≡ some (ids name)
unfolding find
entries-known ids name l = ground (arith, l)

abbrev with_entries : (ℕ → QString) → ℕ → Gds → Gds
with_entries ids k g = record g { m_directory_nodes = entries ids k }

module _ (answers : Answers) (s : Serves answers) (ids : ℕ → QString) where
  asks-application :
      (g : Gds)
      → IsReady ids g
      → has_no_application_id g ≡ true
      → Becomes (all_resolved answers g) g
  unfolding find_registered_application
  asks-application g r new =
      let call =
        calls answers s ids find_applications_name (text g.m_app_record.application_uri ∷ [])
          failed_to_register_application g r (omega arith) in
      (
        call.0,
        chosen (has_no_application_id g) _ _ new
            ∙ guarded (is_offline answers g) (has_no_directory g) _ _ _ (online answers s ids g r)
                (has-directory g r.there)
            ∙ call.1,
      )

  finds-last :
      (g : Gds)
      → g.m_client ≡ true
      → g.m_directory_node ≡ directory
      → has_no_application_id g ≡ true
      → Becomes
          (method_node_resolved answers (resolved_to 8 (ids 8)) (with_entries ids 8 g))
          (with_entries ids 9 g)
  unfolding method_node_resolved find insert
  finds-last g client there new =
      let h = with_entries ids 9 g in
      let ready : IsReady ids h = record {
        client = client;
        there = there;
        known = entries-known ids;
      } in
      Becomes-changed (λ i. record i { m_directory_nodes = insert 8 (ids 8) i.m_directory_nodes }) _
        (with_entries ids 8 g) h (asks-application h ready new)

  -- A method that is not the last one.
  finds-method :
      (k : ℕ) (g : Gds)
      → k < 8
      → Becomes
          (method_node_resolved answers (resolved_to k (ids k)) (with_entries ids k g))
          (with_entries ids (suc k) g)
  unfolding method_node_resolved find insert stop ◌⨾◌ put
  finds-method zero g l = (_, refl)
  finds-method (suc zero) g l = (_, refl)
  finds-method (suc (suc zero)) g l = (_, refl)
  finds-method (suc (suc (suc zero))) g l = (_, refl)
  finds-method (suc (suc (suc (suc zero)))) g l = (_, refl)
  finds-method (suc (suc (suc (suc (suc zero))))) g l = (_, refl)
  finds-method (suc (suc (suc (suc (suc (suc zero)))))) g l = (_, refl)
  finds-method (suc (suc (suc (suc (suc (suc (suc zero))))))) g l = (_, refl)
  finds-method (suc (suc (suc (suc (suc (suc (suc (suc k)))))))) g l = absurd (omega arith)

-- The events up to the answer for the last method, and what follows.
abbrev pub opening : (ℕ → QString) → QString → List Event → List Event
opening ids directory_id following =
    Event.start
    ∷ Event.namespace_array_updated
    ∷ Event.directory_resolved (resolved_to directory_name directory_id)
    ∷ Event.method_node_resolved (resolved_to 0 (ids 0))
    ∷ Event.method_node_resolved (resolved_to 1 (ids 1))
    ∷ Event.method_node_resolved (resolved_to 2 (ids 2))
    ∷ Event.method_node_resolved (resolved_to 3 (ids 3))
    ∷ Event.method_node_resolved (resolved_to 4 (ids 4))
    ∷ Event.method_node_resolved (resolved_to 5 (ids 5))
    ∷ Event.method_node_resolved (resolved_to 6 (ids 6))
    ∷ Event.method_node_resolved (resolved_to 7 (ids 7))
    ∷ Event.method_node_resolved (resolved_to 8 (ids 8))
    ∷ following

module _ ⦃qt : Qt⦄ (index : ℕ) (answers : Answers) (s : Opens index answers)
    (ids : ℕ → QString) where
  finds-methods :
      (following : List Event) (g h : Gds)
      → g.m_client ≡ true
      → g.m_directory_node ≡ directory
      → has_no_application_id g ≡ true
      → Becomes (run_events answers following (with_entries ids 9 g)) h
      → Becomes
          (run_events answers
            (Event.method_node_resolved (resolved_to 0 (ids 0))
              ∷ Event.method_node_resolved (resolved_to 1 (ids 1))
              ∷ Event.method_node_resolved (resolved_to 2 (ids 2))
              ∷ Event.method_node_resolved (resolved_to 3 (ids 3))
              ∷ Event.method_node_resolved (resolved_to 4 (ids 4))
              ∷ Event.method_node_resolved (resolved_to 5 (ids 5))
              ∷ Event.method_node_resolved (resolved_to 6 (ids 6))
              ∷ Event.method_node_resolved (resolved_to 7 (ids 7))
              ∷ Event.method_node_resolved (resolved_to 8 (ids 8))
              ∷ following)
            (with_entries ids 0 g))
          h
  unfolding run_events handle_event
  finds-methods following g h client there new rest =
      let at : ℕ → Gds = λ k. with_entries ids k g in
      Becomes-seq _ _ (at 0) (at 1) h (finds-method answers s.serves ids 0 g (omega arith)) (
        Becomes-seq _ _ (at 1) (at 2) h (finds-method answers s.serves ids 1 g (omega arith)) (
          Becomes-seq _ _ (at 2) (at 3) h (finds-method answers s.serves ids 2 g (omega arith)) (
            Becomes-seq _ _ (at 3) (at 4) h (finds-method answers s.serves ids 3 g (omega arith)) (
              Becomes-seq _ _ (at 4) (at 5) h (finds-method answers s.serves ids 4 g (omega arith))
                (Becomes-seq _ _ (at 5) (at 6) h
                  (finds-method answers s.serves ids 5 g (omega arith))
                  (Becomes-seq _ _ (at 6) (at 7) h
                    (finds-method answers s.serves ids 6 g (omega arith))
                    (Becomes-seq _ _ (at 7) (at 8) h
                      (finds-method answers s.serves ids 7 g (omega arith))
                      (Becomes-seq _ _ (at 8) (at 9) h
                        (finds-last answers s.serves ids g client there new) rest))))))))

  opens :
      (directory_id : QString) (backend url : Text) (app : ApplicationRecord)
      (following : List Event) (h : Gds)
      → (length backend == 0) ≡ false
      → (size (some url) == 0) ≡ false
      → has_no_application_id (new_gds backend url app) ≡ true
      → let found : Gds = record (asked index (started (new_gds backend url app))) {
        m_directory_node = directory;
      } in
        Becomes (run_events answers following (with_entries ids 9 found)) h
        → Becomes
            (run_events answers (opening ids directory_id following) (new_gds backend url app))
            h
  unfolding run_events handle_event
  opens directory_id backend url app following h named addressed new rest =
      let g0 = new_gds backend url app in
      let g1 = started g0 in
      let g2 = asked index g1 in
      let g3 : Gds = record g2 { m_directory_node = directory } in
      Becomes-seq _ _ g0 g1 h (starts index answers s backend url app named addressed) (
        Becomes-seq _ _ g1 g2 h (asks-directory index answers s g1 refl) (
          Becomes-seq _ _ g2 g3 h (finds-directory index answers s directory_id g1 refl)
            (finds-methods following g3 h refl refl new rest)))

-- A new client of a discovery server whose backend and endpoint are set, with an application record
-- that can be encoded and has no application id, gets its application registered: from start, if
-- there are key and certificate files and a readable private key, no stored id and the namespace of
-- the directory, and if the server has every node, accepts every request and answers in turn with
-- the directory, its nine methods under different node ids, no known application, a new application
-- id, at least one certificate group, and a node of its certificate types, the client gets into the
-- state ApplicationRegistered without an error, with that application id and those certificate
-- groups.
pub opening-registers :
    ⦃qt : Qt⦄ (index : ℕ) (answers : Answers) (ids : ℕ → QString) (directory_id types : QString)
    (backend url : Text) (app : ApplicationRecord) (found registered listed : MethodResult)
    (group : Text) (groups : List Text) (attr : ℕ)
    → Opens index answers
    → AreDistinct ids
    → (length backend == 0) ≡ false
    → (size (some url) == 0) ≡ false
    → has_no_application_id (new_gds backend url app) ≡ true
    → (encode_application_record app (of_buffer [])).0 ≡ true
    → (size found.type_id == 0) ≡ true
    → listed.strings ≡ group ∷ groups
    → (size types == 0) ≡ false
    → let events = opening ids directory_id (registration ids found registered listed types attr) in
      (r : Ran) × (run_events answers events (new_gds backend url app) ≡ some r)
      × (r.gds.m_state ≡ State.application_registered)
      × (r.gds.m_error ≡ no_error)
      × (r.gds.m_app_record.application_id ≡ registered.string)
      × (r.gds.m_certificate_groups ≡ listed.strings)
opening-registers index answers ids directory_id types backend url app found registered listed group
      groups attr s distinct named addressed new encodes nothing e full =
    let g : Gds = record (asked index (started (new_gds backend url app))) {
      m_directory_node = directory;
      m_directory_nodes = entries ids 9;
    } in
    let ready : IsReady ids g = record { client = refl; there = refl; known = entries-known ids } in
    let rest =
      registers answers s.serves ids distinct found registered listed group groups types attr g
        ready new encodes nothing e full in
    let all =
      opens index answers s ids directory_id backend url app
        (registration ids found registered listed types attr) _ named addressed new rest in
    (_, all.1, refl, refl, refl, refl)
