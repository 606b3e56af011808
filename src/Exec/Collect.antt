-- ===== src/Exec/Collect.antt =====
-- internal/exec/compiler.go: the nodes that a run executes, found from its targets. The recursive
-- closure `collect` takes fuel.
pub mod Steps
pub mod Fuel
use ic.Prelude.{
  ℕ, zero, suc, ◌+◌, String, Bool, true, false, not, ◌&&◌, ◌||◌, List, [], ◌∷◌, ◌++◌, Option, none,
  some, same, concat, length, leb, if◌then◌else◌,
}
use ic.Prelude.Int.{ℤ, pos}
use ic.Prelude.Dict.{lookup}
use ic.Platform.Float.{Float64, ◌<f◌}
use ic.Platform.Errors.{Code}
use ic.Graph.Document.{
  Document, Edge, Node, Json, null, bool, float, number, text, array, object, Fields, end, field,
  Spec, find_node, children_of, upstream_of, node_type_group, node_type_generation, node_type_run,
}
use ic.Graph.Cycle.{member, sources}
use ic.Provider.Capability.{parse_capability}
use ic.Exec.Plan.{PlanStep, StepKind}

abbrev pub max_dag_nodes : ℕ
max_dag_nodes = 500

pub record CompileError : Type 0 where
  pub code : Code
  pub node_id : String
  pub reason : String

abbrev pub compile_error : Code → String → String → CompileError
compile_error code node_id reason = record { code = code; node_id = node_id; reason = reason }

module _ {F : Type 0} where
  -- spec[key].(string), with "" where it is not a text.
  unfoldable pub text_field : Spec F → String → String
  text_field spec key = elim (lookup key spec) [ some (text s) ↦ s | _ ↦ "" ]

  unfoldable pub fields_of : Fields F → Spec F
  fields_of end = []
  fields_of (field k v rest) = (k, v) ∷ fields_of rest

  abbrev params_of : Option (Json F) → Spec F
  params_of (some (object fields)) = fields_of fields
  params_of _ = []

module _ {F : Type 0} ⦃fl : Float64 F⦄ where
  -- a == b
  abbrev same_float : F → F → Bool
  same_float a b = not (fl.is_nan a || fl.is_nan b) && not (a <f b || b <f a)

  abbrev int_of : Json F → ℤ → ℤ
  int_of (float x) default = if same_float x (fl.num (fl.to_int x)) then fl.to_int x else default
  int_of (number s) default = elim (fl.parse_int s) [ none ↦ default | some n ↦ n ]
  int_of _ default = default

  unfoldable pub int_from_spec : Spec F → String → ℤ → ℤ
  int_from_spec spec key default = elim (lookup key spec) [
    | none ↦ default
    | some v ↦ int_of v default
  ]

  abbrev pub bare_step : Node F → PlanStep F
  bare_step n = record {
    id = concat "st_" n.id;
    node_id = n.id;
    kind = StepKind.generate;
    depends_on = [];
    capability = "";
    model = "";
    provider_id = "";
    credential_id = "";
    params = [];
    count = pos 0;
    inputs = [];
    prompt = "";
    write_back = record { node_id = n.id; port_id = "out" };
  }

  abbrev generation_step : Node F → String → PlanStep F
  generation_step n capability = record (bare_step n) {
    capability = capability;
    model = text_field n.spec "model";
    provider_id = text_field n.spec "providerId";
    credential_id = text_field n.spec "credentialId";
    params = params_of (lookup "params" n.spec);
    count = int_from_spec n.spec "outputCount" (pos 1);
    prompt = text_field n.spec "promptTemplate";
  }

-- What a visit leaves: the plan so far, an error, or nothing where the fuel ran out.
pub record Found (F : Type 0) : Type 0 where
  pub visited : List String
  pub steps : List (PlanStep F)

pub data Collected (F : Type 0) : Type 0 where
  went : Found F → Collected F
  broke : CompileError → Collected F
  out_of_fuel : Collected F

-- The visits of a list in order, until one fails.
unfoldable pub collect_all :
    {F : Type 0} → (String → Found F → Collected F) → List String → Found F → Collected F
collect_all visit [] st = went st
collect_all visit (x ∷ xs) st = elim (visit x st) [
  | went st' ↦ collect_all visit xs st'
  | broke e ↦ broke e
  | out_of_fuel ↦ out_of_fuel
]

abbrev pub executes : {F : Type 0} → Node F → Bool
executes n = same n.type node_type_generation || same n.type node_type_run

pub data Stepped (F : Type 0) : Type 0 where
  stepped : PlanStep F → Stepped F
  unfit : CompileError → Stepped F

abbrev pub CredentialFor : Type 0
CredentialFor = Option (String → String → String → Bool)

abbrev has_credential : CredentialFor → String → String → String → Bool
has_credential none capability provider_id credential_id = true
has_credential (some f) capability provider_id credential_id =
    f capability provider_id credential_id

-- `credential_for` is the `CredentialFor` of the compiler, which may be nil.
module _ {F : Type 0} ⦃fl : Float64 F⦄ (credential_for : CredentialFor) where
  unfoldable pub step_for : Node F → Stepped F
  step_for n =
      if same n.type node_type_run
      then stepped (record (bare_step n) { kind = StepKind.fetch })
      else elim (parse_capability (text_field n.spec "capability")) [
        | none ↦ unfit (
            compile_error Code.invalid_spec n.id
              "capability is required and must be a known capability")
        | some c ↦
            let step = generation_step n c in
            if has_credential credential_for c step.provider_id step.credential_id
            then stepped step
            else unfit (
                compile_error Code.invalid_request n.id
                  (concat "no credential available for capability " c))
      ]

  -- The end of a visit: the step of the node, if there is room for it.
  unfoldable pub append_step : Node F → Found F → Collected F
  append_step n st =
      if leb max_dag_nodes (length st.steps)
      then broke (compile_error Code.payload_too_large "" "plan exceeds max steps")
      else elim (step_for n) [
        | unfit e ↦ broke e
        | stepped step ↦ went (record st { steps = st.steps ++ step ∷ [] })
      ]

  module _ (doc : Document F) where
    unfoldable pub visit_node :
        (String → Found F → Collected F) → String → Node F → Found F → Collected F
    visit_node visit node_id n st =
        if same n.type node_type_group
        then collect_all visit (children_of doc node_id) st
        else if not (executes n)
        then went st
        else elim (collect_all visit (sources (upstream_of doc node_id)) st) [
          | went st' ↦ append_step n st'
          | broke e ↦ broke e
          | out_of_fuel ↦ out_of_fuel
        ]

    unfoldable pub collect : ℕ → String → Found F → Collected F
    collect zero node_id st = out_of_fuel
    collect (suc fuel) node_id st =
        if member node_id st.visited then went st else elim (find_node doc node_id) [
          | none ↦ broke (compile_error Code.not_found node_id "node not found")
          | some n ↦
              visit_node (collect fuel) node_id n (record st { visited = node_id ∷ st.visited })
        ]

    -- Every visit that goes on marks a node of the document.
    abbrev pub collect_fuel : ℕ
    collect_fuel = suc (length doc.nodes)

    unfoldable pub collect_targets : List String → Collected F
    collect_targets targets =
        collect_all (collect collect_fuel) targets (record { visited = []; steps = [] })
