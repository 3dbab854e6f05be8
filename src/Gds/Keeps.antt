-- ===== src/Gds/Keeps.antt =====
-- Rules for what holds after some code, on a property of the state.
use qtopcua.Prelude.{
  ℕ, zero, suc, Bool, true, false, List, [], ◌∷◌, Option, none, some, if◌then◌else◌,
}
use qtopcua.Gds.State.{
  Gds, Ran, Op, Action, with_actions, continue, ◌⨾◌, stop, act, put, DirectoryNode, null,
  objects_folder, directory, if_there,
}
use qtopcua.Gds.Events.{times}

-- If the code uses no null pointer, the property holds after it.
abbrev pub After {ℓ} : (Gds → Type ℓ) → Option Ran → Type ℓ
After I none = Unit
After I (some r) = I r.gds

-- The code keeps the property.
pub record Keeps {ℓ} (I : Gds → Type ℓ) (op : Op) : Type ℓ where
  pub keeps : (g : Gds) → I g → After I (op g)

module _ {ℓ} (I : Gds → Type ℓ) where
  After-with_actions :
      (actions : List Action) (o : Option Ran) → After I o → After I (with_actions actions o)
  After-with_actions actions none h = h
  After-with_actions actions (some r) h = h

  After-continue : (o : Option Ran) (op : Op) → After I o → Keeps I op → After I (continue o op)
  After-continue none op h k = h
  After-continue (some r) op h k = After-with_actions r.actions (op r.gds) (k.keeps r.gds h)

  pub After-seq :
      (first second : Op) (g : Gds)
      → After I (first g)
      → Keeps I second
      → After I ((first ⨾ second) g)
  unfolding ◌⨾◌
  After-seq first second g h k = After-continue (first g) second h k

  pub After-if :
      (b : Bool) (x y : Option Ran) → After I x → After I y → After I (if b then x else y)
  After-if true x y h k = h
  After-if false x y h k = k

  pub After-if_there :
      (node : DirectoryNode) (o : Option Ran) → After I o → After I (if_there node o)
  unfolding if_there
  After-if_there null o h = tt
  After-if_there objects_folder o h = h
  After-if_there directory o h = h

module _ {ℓ} {I : Gds → Type ℓ} where
  pub Keeps-seq : {first second : Op} → Keeps I first → Keeps I second → Keeps I (first ⨾ second)
  Keeps-seq {first} {second} h k = record {
    keeps = λ g i. After-seq I first second g (h.keeps g i) k;
  }

  pub Keeps-stop : Keeps I stop
  unfolding stop
  Keeps-stop = record { keeps = λ g i. i }

  pub Keeps-act : (action : Action) → Keeps I (act action)
  unfolding act
  Keeps-act action = record { keeps = λ g i. i }

  pub Keeps-put : (f : Gds → Gds) → ((g : Gds) → I g → I (f g)) → Keeps I (put f)
  unfolding put
  Keeps-put f h = record { keeps = h }

  pub Keeps-if :
      (b : Bool) {first second : Op}
      → Keeps I first
      → Keeps I second
      → Keeps I (if b then first else second)
  Keeps-if true h k = h
  Keeps-if false h k = k

  -- The code may read the state.
  pub Keeps-reads : {op : Gds → Op} → ((g : Gds) → Keeps I (op g)) → Keeps I (λ g. op g g)
  Keeps-reads h = record { keeps = λ g i. (h g).keeps g i }

  pub Keeps-option {κ} :
      {A : Type κ} (o : Option A) {first : Op} {second : A → Op}
      → Keeps I first
      → ((a : A) → Keeps I (second a))
      → Keeps I (elim o [ none ↦ first | some a ↦ second a ])
  Keeps-option none h k = h
  Keeps-option (some a) h k = k a

  pub Keeps-times : (n : ℕ) {op : Op} → Keeps I op → Keeps I (times n op)
  unfolding times
  Keeps-times zero h = Keeps-stop
  Keeps-times (suc n) h = Keeps-seq h (Keeps-times n h)

-- The state after an assignment, and after an action, is known.
module _ {ℓ} (I : Gds → Type ℓ) where
  pub After-put :
      (f : Gds → Gds) (op : Op) (g : Gds) → After I (op (f g)) → After I ((put f ⨾ op) g)
  unfolding ◌⨾◌ put
  After-put f op g h = After-with_actions I [] (op (f g)) h

  pub After-act :
      (action : Action) (op : Op) (g : Gds) → After I (op g) → After I ((act action ⨾ op) g)
  unfolding ◌⨾◌ act
  After-act action op g h = After-with_actions I (action ∷ []) (op g) h
