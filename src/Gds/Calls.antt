-- ===== src/Gds/Calls.antt =====
-- A call of a method that is known, and accepted.
use qtopcua.Prelude.{
  ℕ, ◌≡◌, refl, ◌∙◌, Bool, true, false, List, [], ◌∷◌, ◌++◌, Option, none, some, if◌then◌else◌,
  find,
}
use qtopcua.Qt.Text.{QString}
use qtopcua.Gds.State.{
  call_method, Error, Argument, Gds, Answers, Ran, Op, with_actions, stop, act, put, ◌⨾◌,
  DirectoryNode, directory, touched, directory_node_id, if_there, called_method,
  call_directory_method,
}

-- One after the other, where the first runs through.
pub seq-some :
    (first second : Op) (g : Gds) (r q : Ran)
    → first g ≡ some r
    → second r.gds ≡ some q
    → (first ⨾ second) g ≡ some (record { gds = q.gds; actions = r.actions ++ q.actions })
unfolding ◌⨾◌
seq-some first second g r q e f = rw (e, ◌⨾◌) (rw (f, with_actions) refl)

pub seq-none : (first second : Op) (g : Gds) → first g ≡ none → (first ⨾ second) g ≡ none
unfolding ◌⨾◌
seq-none first second g e = rw (e, ◌⨾◌) refl

pub seq-none_later :
    (first second : Op) (g : Gds) (r : Ran)
    → first g ≡ some r
    → second r.gds ≡ none
    → (first ⨾ second) g ≡ none
unfolding ◌⨾◌
seq-none_later first second g r e f = rw (e, ◌⨾◌) (rw (f, with_actions) refl)

there-directory : (node : DirectoryNode) (o : Option Ran) → node ≡ directory → if_there node o ≡ o
unfolding if_there
there-directory node o e = rw e refl

-- The guards in front of a call.
pub guarded {ℓ} :
    {A : Type ℓ} (b c : Bool) (x y z : A)
    → b ≡ false
    → c ≡ false
    → (if b then x else if c then y else z) ≡ z
guarded b c x y z e f = rw (e, f) refl

module _ (name : ℕ) (g : Gds) (id : QString) (known : find name g.m_directory_nodes ≡ some id) where
  pub touched-known : touched name g ≡ g
  unfolding touched
  touched-known = rw (known, touched) refl

  pub id-known : directory_node_id name g ≡ id
  unfolding directory_node_id
  id-known = rw (known, directory_node_id) refl

  module _ (answers : Answers) (accepts : answers.accepts ≡ true) (arguments : List Argument)
      (e : Error) where
    pub called-known :
        called_method answers name arguments e g
        ≡ some (record { gds = g; actions = call_method id arguments ∷ [] })
    unfolding called_method put act stop ◌⨾◌
    called-known = rw accepts (rw (touched-known, id-known) refl)

    pub call-known :
        g.m_directory_node ≡ directory
        → call_directory_method answers name arguments e g
          ≡ some (record { gds = g; actions = call_method id arguments ∷ [] })
    unfolding call_directory_method
    call-known there = there-directory g.m_directory_node _ there ∙ called-known
