-- ===== src/Gds/Invariant.antt =====
-- What is always so in the client of a discovery server.
use qtopcua.Prelude.{
  ℕ, ◌≡◌, ◌≢◌, ◌≤◌, ◌<◌, refl, ◌⊎◌, List, [], Option, none, some, find, insert, IsUnique,
  insert-IsUnique, find-insert, find-nil, Option-cases, inl, inr, arith,
}
use qtopcua.Qt.Text.{QString, size}
use qtopcua.Gds.State.{
  State, Error, error, no_error, Gds, Answers, set_state, set_error, DirectoryNode, null, directory,
  touched, called_method, call_directory_method, Argument,
}
use qtopcua.Gds.Certificates.{slots_of}
use qtopcua.Gds.Keeps.{
  Keeps, Keeps-seq, Keeps-stop, Keeps-act, Keeps-put, Keeps-reads, Keeps-if, After-if_there,
}

-- An error state has an error. The directory map has names of elementsToResolve only, each once.
-- The namespace of a directory node is known. A signing request that is waited for has a timer,
-- and a timer has a slot.
pub record IsWellFormed (g : Gds) : Type 0 where
  pub has_error : (g.m_state ≢ error) ⊎ (g.m_error ≢ no_error)
  pub names_known : (name : ℕ) (id : QString) → find name g.m_directory_nodes ≡ some id → name < 9
  pub names_unique : IsUnique g.m_directory_nodes
  pub has_index : (g.m_directory_node ≢ directory) ⊎ ((i : ℕ) × (g.m_gds_namespace_index ≡ some i))
  pub has_timer :
      (size g.m_certificate_request_id ≡ 0) ⊎ (1 ≤ slots_of g.m_certificate_finish_timer)

pub Keeps-set_error : (e : Error) → e ≢ no_error → Keeps IsWellFormed (set_error e)
unfolding set_error
Keeps-set_error e ne = record {
  keeps = λ g w. record {
    has_error = inr ne;
    names_known = w.names_known;
    names_unique = w.names_unique;
    has_index = w.has_index;
    has_timer = w.has_timer;
  };
}

-- Only these members matter.
pub IsWellFormed-same :
    (g h : Gds)
    → IsWellFormed g
    → h.m_state ≡ g.m_state
    → h.m_error ≡ g.m_error
    → h.m_directory_nodes ≡ g.m_directory_nodes
    → h.m_directory_node ≡ g.m_directory_node
    → h.m_gds_namespace_index ≡ g.m_gds_namespace_index
    → h.m_certificate_request_id ≡ g.m_certificate_request_id
    → h.m_certificate_finish_timer ≡ g.m_certificate_finish_timer
    → IsWellFormed h
IsWellFormed-same g h w state err nodes node index request timer = record {
  has_error = rw (state, err) w.has_error;
  names_known = rw nodes w.names_known;
  names_unique = rw nodes w.names_unique;
  has_index = rw (node, index) w.has_index;
  has_timer = rw (request, timer) w.has_timer;
}

pub Keeps-set_state : (s : State) → s ≢ error → Keeps IsWellFormed (set_state s)
unfolding set_state
Keeps-set_state s ne = record {
  keeps = λ g w. record {
    has_error = inl ne;
    names_known = w.names_known;
    names_unique = w.names_unique;
    has_index = w.has_index;
    has_timer = w.has_timer;
  };
}

-- No directory node is left, or that of the objects folder is there.
pub without_directory-IsWellFormed :
    (g : Gds) (node : DirectoryNode) (index : Option ℕ)
    → node ≢ directory
    → IsWellFormed g
    → IsWellFormed (record g { m_directory_node = node; m_gds_namespace_index = index })
without_directory-IsWellFormed g node index ne w = record {
  has_error = w.has_error;
  names_known = w.names_known;
  names_unique = w.names_unique;
  has_index = inl ne;
  has_timer = w.has_timer;
}

pub known-IsWellFormed :
    (g : Gds) (name : ℕ) (id : QString)
    → name < 9
    → IsWellFormed g
    → IsWellFormed (record g { m_directory_nodes = insert name id g.m_directory_nodes })
known-IsWellFormed g name id known w = record {
  has_error = w.has_error;
  names_known =
      λ n i e. ground (arith, find-insert name n id g.m_directory_nodes, w.names_known n i);
  names_unique = insert-IsUnique name id g.m_directory_nodes w.names_unique;
  has_index = w.has_index;
  has_timer = w.has_timer;
}

pub touched-IsWellFormed :
    (name : ℕ) (g : Gds) → name < 9 → IsWellFormed g → IsWellFormed (touched name g)
unfolding touched
touched-IsWellFormed name g known w = elim (Option-cases (find name g.m_directory_nodes)) [
  | inl new ↦ rw (new, touched) (known-IsWellFormed g name none known w)
  | inr old ↦ rw (old.1, touched) (IsWellFormed-same g g w refl refl refl refl refl refl refl)
]

-- The call on a directory node that is there.
module _ (answers : Answers) (name : ℕ) (arguments : List Argument) (e : Error) (known : name < 9)
    (ne : e ≢ no_error) where
  pub Keeps-called : Keeps IsWellFormed (called_method answers name arguments e)
  unfolding called_method
  Keeps-called = Keeps-reads (λ g.
      Keeps-seq (Keeps-put (touched name) (λ h. touched-IsWellFormed name h known))
        (Keeps-seq (Keeps-act _) (Keeps-if answers.accepts Keeps-stop (Keeps-set_error e ne))))

  pub Keeps-call : Keeps IsWellFormed (call_directory_method answers name arguments e)
  unfolding call_directory_method
  Keeps-call = record {
    keeps = λ g w. After-if_there IsWellFormed g.m_directory_node _ (Keeps-called.keeps g w);
  }

-- The directory node and its methods are forgotten.
pub no_directory-IsWellFormed :
    (g : Gds)
    → IsWellFormed g
    → IsWellFormed (record g { m_directory_node = null; m_directory_nodes = [] })
no_directory-IsWellFormed g w = record {
  has_error = w.has_error;
  names_known = λ name id e. absurd (ground (arith, e, find-nil {V = QString} name));
  names_unique = tt;
  has_index = inl (λ e. cc);
  has_timer = w.has_timer;
}
