-- ===== src/Gds/Dispatched.antt =====
-- How the result of a method gets to its handler, once every method is known
-- (opcua/client/qopcuagdsclient.cpp).
use qtopcua.Prelude.{
  ℕ, ◌≡◌, ◌<◌, refl, sym, ap, subst, ◌∙◌, Bool, true, false, List, [], ◌∷◌, Option, some, ◌==◌,
  ==_iff, if◌then◌else◌, find, All, Bool-cases, inl, inr, arith,
}
use qtopcua.Qt.Text.{QString, units, text_eq}
use qtopcua.NodeIds.Equals.{text_eq_refl}
use qtopcua.Gds.State.{Action, Gds, Ran, Op, act, put, ◌⨾◌, directory}
use qtopcua.Gds.Calls.{seq-some, touched-known, id-known}
use qtopcua.Gds.Events.{dispatch}

-- The directory is there, with a node id for each of its nine methods.
pub record IsReady (ids : ℕ → QString) (g : Gds) : Type 0 where
  pub client : g.m_client ≡ true
  pub there : g.m_directory_node ≡ directory
  pub known : (name : ℕ) → name < 9 → find name g.m_directory_nodes ≡ some (ids name)

-- Only these members matter.
pub IsReady-same :
    (ids : ℕ → QString) (g h : Gds)
    → IsReady ids g
    → h.m_client ≡ g.m_client
    → h.m_directory_node ≡ g.m_directory_node
    → h.m_directory_nodes ≡ g.m_directory_nodes
    → IsReady ids h
IsReady-same ids g h r client node nodes = record {
  client = client ∙ r.client;
  there = node ∙ r.there;
  known = λ name l. ap (find name) nodes ∙ r.known name l;
}

-- Different methods have different node ids.
abbrev pub AreDistinct : (ℕ → QString) → Type 0
AreDistinct ids =
    (m n : ℕ) → m < 9 → n < 9 → (m == n) ≡ false → text_eq (units (ids m)) (units (ids n)) ≡ false

-- The code runs through and leaves a state.
abbrev pub Becomes : Option Ran → Gds → Type 0
Becomes o h = (actions : List Action) × (o ≡ some (record { gds = h; actions = actions }))

pub Becomes-seq :
    (first second : Op) (g h j : Gds)
    → Becomes (first g) h
    → Becomes (second h) j
    → Becomes ((first ⨾ second) g) j
Becomes-seq first second g h j a b = (
  _,
  seq-some first second g (record { gds = h; actions = a.0 }) (record { gds = j; actions = b.0 })
      a.1 b.1,
)

pub Becomes-act : (action : Action) (g : Gds) → Becomes (act action g) g
unfolding act
Becomes-act action g = (_, refl)

pub Becomes-put : (f : Gds → Gds) (g : Gds) → Becomes (put f g) (f g)
unfolding put
Becomes-put f g = (_, refl)

-- After an action, and after a change.
pub Becomes-acted :
    (action : Action) (op : Op) (g h : Gds) → Becomes (op g) h → Becomes ((act action ⨾ op) g) h
Becomes-acted action op g h b = Becomes-seq (act action) op g g h (Becomes-act action g) b

pub Becomes-changed :
    (f : Gds → Gds) (op : Op) (g h : Gds) → Becomes (op (f g)) h → Becomes ((put f ⨾ op) g) h
Becomes-changed f op g h b = Becomes-seq (put f) op g (f g) h (Becomes-put f g) b

pub Becomes-choice :
    (b : Bool) (first second : Op) (g h : Gds)
    → Becomes (first g) h
    → Becomes (second g) h
    → Becomes ((if b then first else second) g) h
Becomes-choice true first second g h a b = a
Becomes-choice false first second g h a b = b

module _ (ids : ℕ → QString) (distinct : AreDistinct ids) where
  pub dispatch-find :
      (handlers : List (ℕ × Op)) (name : ℕ) (handler : Op) (g : Gds)
      → IsReady ids g
      → All (λ h. h.0 < 9) handlers
      → name < 9
      → find name handlers ≡ some handler
      → dispatch handlers (ids name) g ≡ handler g
  unfolding dispatch find
  dispatch-find [] name handler g ready below known found = cc
  dispatch-find ((m, op) ∷ handlers) name handler g ready below known found =
      let e = touched-known m g (ids m) (ready.known m below.0) in
      let i = id-known m g (ids m) (ready.known m below.0) in
      elim (Bool-cases (m == name)) [
        | inl same ↦
            let eq : m ≡ name = (==_iff m name).0 same in
            let right : text_eq (units (ids name)) (units (ids m)) ≡ true =
              subst (λ n. text_eq (units (ids name)) (units (ids n)) ≡ true) (sym eq)
                (text_eq_refl (units (ids name))) in
            let chosen : some op ≡ some handler = sym (rw same refl) ∙ found in
            let op_eq : op ≡ handler = cc in rw (e, i, right) (ap (λ k. k g) op_eq)
        | inr other ↦
            let unlike : (name == m) ≡ false = ground (arith, other) in
            let later : find name handlers ≡ some handler = ground (arith, found, other) in
            rw (e, i, distinct name m known below.0 unlike)
              (dispatch-find handlers name handler g ready below.1 known later)
      ]
