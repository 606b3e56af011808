-- ===== src/Exec/Inputs.antt =====
-- internal/exec/compiler.go, `resolveInputs`: what a step is given of the nodes that feed it.
use ic.Prelude.{
  ℕ, ◌+◌, String, Bool, true, false, not, List, [], ◌∷◌, Option, none, some, same, concat, itoa,
  text_le, if◌then◌else◌,
}
use ic.Prelude.Int.{ℤ, pos, ltb_ℤ}
use ic.Prelude.Dict.{lookup, insert}
use ic.Platform.Errors.{Code}
use ic.Graph.Document.{
  Document, Edge, Node, NodeResult, Port, ResultVariant, find_node, upstream_of, node_type_group,
}
use ic.Exec.Plan.{PlanStep, ResolvedInput}
use ic.Exec.Collect.{CompileError, compile_error, executes, text_field}

-- A Go result of which the error is a compile error.
pub data Resolved (A : Type 0) : Type 0 where
  resolved : A → Resolved A
  refused : CompileError → Resolved A

-- `KindLabelCN` of internal/provider/compose.go.
unfoldable pub kind_label : String → String
kind_label kind =
    if same kind "image"
    then "图片"
    else if same kind "video"
    then "视频"
    else if same kind "audio"
    then "音频"
    else if same kind "text"
    then "文本"
    else if same kind "group"
    then "组"
    else "素材"

-- orderIndex[id]: the order of the last port of the id, and 0 where there is none.
unfoldable pub order_of : List Port → String → ℤ → ℤ
order_of [] id found = found
order_of (p ∷ ports) id found = order_of ports id (if same p.id id then p.order else found)

unfoldable pub edge_before : List Port → Edge → Edge → Bool
edge_before ports a b =
    let oa = order_of ports a.to.port_id (pos 0) in
    let ob = order_of ports b.to.port_id (pos 0) in
    if ltb_ℤ oa ob then true else if ltb_ℤ ob oa then false else not (text_le b.id a.id)

unfoldable pub insert_edge : List Port → Edge → List Edge → List Edge
insert_edge ports e [] = e ∷ []
insert_edge ports e (x ∷ es) =
    let rest = insert_edge ports e es in if edge_before ports x e then x ∷ rest else e ∷ x ∷ es

-- The stable sort of the edges.
unfoldable pub sort_edges : List Port → List Edge → List Edge
sort_edges ports [] = []
sort_edges ports (e ∷ es) = insert_edge ports e (sort_edges ports es)

abbrev pub first_variant : Option NodeResult → Option ResultVariant
first_variant none = none
first_variant (some r) = elim (r.variants) [ [] ↦ none | v ∷ vs ↦ some v ]

abbrev pub bare_input : String → String → String → ResolvedInput
bare_input kind value asset_id = record {
  kind = kind;
  value = value;
  asset_id = asset_id;
  label = "";
  origin = record { node_id = ""; port_id = "" };
}

abbrev result_asset : Option ResultVariant → String
result_asset none = ""
result_asset (some v) = v.asset_id

abbrev variant_input : ResultVariant → ResolvedInput
variant_input v =
    if same v.asset_id ""
    then bare_input v.kind v.text ""
    else bare_input v.kind v.asset_id v.asset_id

abbrev count_of : String → List (String × ℕ) → ℕ
count_of kind counts = elim (lookup kind counts) [ none ↦ 0 | some n ↦ n ]

module _ {F : Type 0} where
  -- An image, a video or an audio: its own asset, or else that of its last result.
  unfoldable pub media_input : String → String → Node F → Resolved ResolvedInput
  media_input kind reason n =
      let own = text_field n.spec "assetId" in
      let asset = if same own "" then result_asset (first_variant n.result) else own in
      if same asset ""
      then refused (compile_error Code.invalid_spec n.id reason)
      else resolved (bare_input kind asset asset)

  unfoldable pub resolve_node_as_input : Node F → Resolved ResolvedInput
  resolve_node_as_input n =
      if same n.type "prompt"
      then (if same (text_field n.spec "text") ""
          then refused (compile_error Code.invalid_spec n.id "prompt node has empty text")
          else resolved (bare_input "text" (text_field n.spec "text") ""))
      else if same n.type "image"
      then media_input "image" "image node has no asset" n
      else if same n.type "video"
      then media_input "video" "video node has no asset" n
      else if same n.type "audio"
      then media_input "audio" "audio node has no asset" n
      else if executes n
      then elim (first_variant n.result) [
        | none ↦ refused (
            compile_error Code.invalid_request n.id
              "upstream generation has no result yet; run it first")
        | some v ↦ resolved (variant_input v)
      ]
      else if same n.type node_type_group
      then refused
          (compile_error Code.invalid_spec n.id "group node cannot be used as input directly")
      else refused
          (compile_error Code.invalid_node_type n.id (concat "unsupported input node type " n.type))

  unfoldable pub label_inputs :
      Document F → List Edge → List (String × ℕ) → Resolved (List ResolvedInput)
  label_inputs doc [] counts = resolved []
  label_inputs doc (e ∷ es) counts = elim (find_node doc e.from.node_id) [
    | none ↦ refused (compile_error Code.not_found e.from.node_id "edge source missing")
    | some src ↦ elim (resolve_node_as_input src) [
      | refused x ↦ refused x
      | resolved i ↦
          let n = count_of i.kind counts + 1 in
          let input : ResolvedInput = record i {
            label = concat (kind_label i.kind) (itoa n);
            origin = record { node_id = src.id; port_id = e.from.port_id };
          } in
          elim (label_inputs doc es (insert i.kind n counts)) [
            | refused x ↦ refused x
            | resolved rest ↦ resolved (input ∷ rest)
          ]
    ]
  ]

  abbrev input_ports : Document F → String → List Port
  input_ports doc node_id = elim (find_node doc node_id) [ none ↦ [] | some n ↦ n.ports.inputs ]

  unfoldable pub resolve_inputs : Document F → PlanStep F → Resolved (List ResolvedInput)
  resolve_inputs doc step =
      label_inputs doc (sort_edges (input_ports doc step.node_id) (upstream_of doc step.node_id)) []
