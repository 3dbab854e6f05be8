-- ===== src/NodeIds/Equals.antt =====
-- QOpcUa::nodeIdEquals, and a canonical form of node ids.
use qtopcua.Prelude.{◌≡◌, ◌↔◌, refl, true, not, ◌&&◌, [], ◌∷◌, ◌++◌, arith, drop, if◌then◌else◌}
use qtopcua.Qt.Text.{Text, starts_with, text_eq}
use qtopcua.NodeIds.{ns_prefix, ns0_prefix, node_id_equals}

text_eq→eq : (s t : Text) → text_eq s t ≡ true → s ≡ t
text_eq→eq [] [] h = refl
text_eq→eq [] (y ∷ t) h = cc
text_eq→eq (x ∷ s) [] h = cc
text_eq→eq (x ∷ s) (y ∷ t) h = ground (arith, text_eq→eq s t)

pub text_eq_refl : (s : Text) → text_eq s s ≡ true
text_eq_refl [] = refl
text_eq_refl (x ∷ s) = ground (arith, text_eq_refl s)

eq→text_eq : (s t : Text) → s ≡ t → text_eq s t ≡ true
eq→text_eq s t e = rw e (text_eq_refl t)

-- A text that starts with "ns=0;" is that and the rest, and starts with "ns=".
ns0_split : (s : Text) → starts_with ns0_prefix s ≡ true → s ≡ ns0_prefix ++ drop 5 s
ns0_split [] h = cc
ns0_split (a ∷ []) h = ground arith
ns0_split (a ∷ b ∷ []) h = ground arith
ns0_split (a ∷ b ∷ c ∷ []) h = ground arith
ns0_split (a ∷ b ∷ c ∷ d ∷ []) h = ground arith
ns0_split (a ∷ b ∷ c ∷ d ∷ e ∷ s) h = ground arith

ns0→ns : (s : Text) → starts_with ns0_prefix s ≡ true → starts_with ns_prefix s ≡ true
ns0→ns s h = rw (ns0_split s h) refl

-- A namespace index 0 is left out, unless what follows would be read as another one.
abbrev pub canonical : Text → Text
canonical s =
    if starts_with ns0_prefix s && not (starts_with ns_prefix (drop 5 s)) then drop 5 s else s

equals→canonical : (a b : Text) → node_id_equals a b ≡ true → canonical a ≡ canonical b
unfolding node_id_equals
equals→canonical a b h =
    ground
      (arith, text_eq→eq (drop 5 a) b, text_eq→eq (drop 5 b) a, text_eq→eq a b, ns0→ns a, ns0→ns b)

canonical→equals : (a b : Text) → canonical a ≡ canonical b → node_id_equals a b ≡ true
unfolding node_id_equals
canonical→equals a b h = ground (
  arith,
  eq→text_eq (drop 5 a) b,
  eq→text_eq (drop 5 b) a,
  eq→text_eq a b,
  ns0→ns a,
  ns0→ns b,
  ns0_split a,
  ns0_split b,
)

pub node_id_equals-canonical :
    (a b : Text) → (node_id_equals a b ≡ true) ↔ (canonical a ≡ canonical b)
node_id_equals-canonical a b = (equals→canonical a b, canonical→equals a b)
