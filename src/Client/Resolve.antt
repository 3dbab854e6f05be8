-- ===== src/Client/Resolve.antt =====
-- QOpcUaClient::resolveExpandedNodeId and qualifiedNameFromNamespaceUri
-- (opcua/client/qopcuaclient.cpp): namespace URIs looked up in the namespace array.
use qtopcua.Prelude.{
  ℕ, suc, ◌+◌, ◌%◌, ◌^◌, ◌≡◌, ◌≢◌, refl, ap, ◌∙◌, false, not, ◌&&◌, List, [], ◌∷◌, ◌++◌, Option,
  none, some, ◌==◌, if◌then◌else◌, length, All, arith,
}
use qtopcua.Qt.Text.{Text, QString, units, size, split, text_eq}
use qtopcua.Qt.Api.{Qt}
use qtopcua.NodeIds.{ns_prefix, node_id_text}
use qtopcua.NodeIds.Split.{IsPlain, components}
use qtopcua.NodeIds.Equals.{text_eq_refl}
use qtopcua.Encoding.Records.{ExpandedNodeId, QualifiedName}

-- QStringList::indexOf, from an index on.
unfoldable pub index_from : ℕ → Text → List Text → Option ℕ
index_from i uri [] = none
index_from i uri (x ∷ xs) =
    let rest = index_from (suc i) uri xs in if text_eq x uri then some i else rest

abbrev pub second : List Text → Option Text
second (a ∷ b ∷ []) = some b
second components = none

module _ ⦃qt : Qt⦄ (namespaces : List Text) where
  -- none where `ok` is set to false.
  unfoldable pub resolve_expanded_node_id : ExpandedNodeId → Option QString
  resolve_expanded_node_id id =
      if not (id.server_index == 0) && not (size id.namespace_uri == 0)
      then none
      else if size id.namespace_uri == 0
      then some id.node_id
      else (elim (index_from 0 (units id.namespace_uri) namespaces) [
        | none ↦ none
        | some index ↦ elim (second (split b';' (units id.node_id))) [
          | none ↦ none
          | some identifier ↦ some (some (ns_prefix ++ (qt.number index ++ (b';' ∷ identifier))))
        ]
      ])

  -- The index is an int, of which the qualified name keeps 16 bits.
  unfoldable pub qualified_name_from_namespace_uri : Text → QString → Option QualifiedName
  qualified_name_from_namespace_uri uri name = elim (index_from 0 uri namespaces) [
    | none ↦ none
    | some index ↦ some (record { namespace_index = index % 2 ^ 16; name = name })
  ]

index_from-first :
    (i : ℕ) (uri : Text) (before after : List Text)
    → All (λ x. text_eq x uri ≡ false) before
    → index_from i uri (before ++ (uri ∷ after)) ≡ some (i + length before)
unfolding index_from
index_from-first i uri [] after h = ground (arith, text_eq_refl uri)
index_from-first i uri (x ∷ before) after h =
    ground (arith, h.0, index_from-first (suc i) uri before after h.1)

-- An expanded node id on the own server, with a namespace URI that is not empty and first stands
-- behind some other entries of the namespace array, and with a node id made from any namespace
-- index, type and identifier without a semicolon, is resolved to the node id with the place of the
-- URI in the array as its namespace index.
pub resolve_expanded_node_id-node_id_text :
    ⦃qt : Qt⦄ (before after : List Text) (uri : Text) (ns type : ℕ) (identifier : Text)
    → uri ≢ []
    → All (λ x. text_eq x uri ≡ false) before
    → IsPlain (type ∷ b'=' ∷ identifier)
    → resolve_expanded_node_id (before ++ (uri ∷ after)) (record {
      server_index = 0;
      namespace_uri = some uri;
      node_id = some (node_id_text ns type identifier);
    })
      ≡ some (some (node_id_text (length before) type identifier))
unfolding resolve_expanded_node_id
resolve_expanded_node_id-node_id_text before after [] ns type identifier full new plain =
    absurd (full refl)
resolve_expanded_node_id-node_id_text before after (c ∷ uri) ns type identifier full new plain =
    let found : index_from 0 (c ∷ uri) (before ++ ((c ∷ uri) ∷ after)) ≡ some (length before) =
      index_from-first 0 (c ∷ uri) before after new ∙ ap some (omega arith) in
    rw found (rw (components ns type identifier plain) (ground arith))
