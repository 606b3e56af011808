-- ===== src/Graph/Document.antt =====
-- internal/graph/doc.go: the canvas document. Maps are association lists, times are
-- numbers with 0 for the zero time, and coordinates are of the type `F` of doubles.
use ic.Prelude.{
  ℕ, String, Bool, true, false, List, [], ◌∷◌, Option, none, some, same, if◌then◌else◌,
  sort_strings, ◌||◌,
}
use ic.Prelude.Int.{ℤ, pos}
use ic.Prelude.Dict.{lookup, insert, keys}
use ic.Platform.Float.{Float64}

-- Values of `any` as they come out of encoding/json: `number` is a json.Number, `float` a float64.
mutual
  pub data Json (F : Type 0) : Type 0 where
    null : Json F
    bool : Bool → Json F
    float : F → Json F
    number : String → Json F
    text : String → Json F
    array : Items F → Json F
    object : Fields F → Json F

  pub data Items (F : Type 0) : Type 0 where
    nil : Items F
    cons : Json F → Items F → Items F

  pub data Fields (F : Type 0) : Type 0 where
    end : Fields F
    field : String → Json F → Fields F → Fields F

abbrev pub Spec : Type 0 → Type 0
Spec F = List (String × Json F)

pub record Rect (F : Type 0) : Type 0 where
  pub x : F
  pub y : F
  pub w : F
  pub h : F

pub record Viewport (F : Type 0) : Type 0 where
  pub x : F
  pub y : F
  pub k : F

pub record CanvasSettings : Type 0 where
  pub background : String
  pub image_info : Bool
  pub grid_snap : Bool
  pub read_only : Bool
  pub free_resize : Bool

abbrev pub default_settings : CanvasSettings
default_settings = record {
  background = "dots";
  image_info = true;
  grid_snap = false;
  read_only = false;
  free_resize = false;
}

pub record Port : Type 0 where
  pub id : String
  pub name : String
  pub kind : String
  pub multiple : Bool
  pub required : Bool
  pub order : ℤ

pub record Ports : Type 0 where
  pub inputs : List Port
  pub outputs : List Port

pub record ResultVariant : Type 0 where
  pub asset_id : String
  pub text : String
  pub kind : String
  pub status : String
  pub error : String

pub record NodeResult : Type 0 where
  pub variants : List ResultVariant
  pub primary : ℤ
  pub run_id : String
  pub step_id : String

pub record NodeError : Type 0 where
  pub code : String
  pub message : String

pub record Node (F : Type 0) : Type 0 where
  pub id : String
  pub type : String
  pub title : String
  pub rect : Rect F
  pub z : ℤ
  pub parent_id : String
  pub ports : Ports
  pub spec : Spec F
  pub state : String
  pub result : Option NodeResult
  pub error : Option NodeError
  pub locked : Bool
  pub meta : Spec F

pub record Endpoint : Type 0 where
  pub node_id : String
  pub port_id : String

pub record Edge : Type 0 where
  pub id : String
  pub from : Endpoint
  pub to : Endpoint
  pub kind : String
  pub created_by : String
  pub created_at : ℕ

pub record Document (F : Type 0) : Type 0 where
  pub id : String
  pub project_id : String
  pub version : ℕ
  pub viewport : Viewport F
  pub settings : CanvasSettings
  pub nodes : List (String × Node F)
  pub edges : List (String × Edge)
  pub updated_at : ℕ

abbrev pub node_type_group : String
node_type_group = "group"

abbrev pub node_type_generation : String
node_type_generation = "generation"

abbrev pub node_type_run : String
node_type_run = "run"

unfoldable pub valid_resource_kind : String → Bool
valid_resource_kind k =
    same k "text"
    || same k "image"
    || same k "video"
    || same k "audio"
    || same k "file"
    || same k "json"

unfoldable pub valid_node_state : String → Bool
valid_node_state s =
    same s "idle" || same s "pending" || same s "running" || same s "succeeded" || same s "failed"

module _ {F : Type 0} ⦃fl : Float64 F⦄ where
  unfoldable pub new_document : String → String → Document F
  new_document id project_id = record {
    id = id;
    project_id = project_id;
    version = 0;
    viewport = record { x = fl.num (pos 0); y = fl.num (pos 0); k = fl.num (pos 1) };
    settings = default_settings;
    nodes = [];
    edges = [];
    updated_at = 0;
  }

module _ {F : Type 0} (doc : Document F) where
  abbrev pub find_node : String → Option (Node F)
  find_node id = lookup id doc.nodes

  -- doc.Nodes[id] = n
  abbrev pub put_node : String → Node F → Document F
  put_node id n = record doc { nodes = insert id n doc.nodes }

  unfoldable pub node_ids : List String
  node_ids = sort_strings (keys doc.nodes)

  unfoldable pub edge_ids : List String
  edge_ids = sort_strings (keys doc.edges)

  -- The edges of a list of ids that pass a test, by lookup.
  unfoldable pub edges_where : (Edge → Bool) → List String → List Edge
  edges_where p [] = []
  edges_where p (id ∷ ids) =
      let rest = edges_where p ids in
      elim (lookup id doc.edges) [ none ↦ rest | some e ↦ if p e then e ∷ rest else rest ]

  unfoldable pub upstream_of : String → List Edge
  unfolding edges_where
  upstream_of node_id = edges_where (λ e. same e.to.node_id node_id) edge_ids

  unfoldable pub downstream_of : String → List Edge
  unfolding edges_where
  downstream_of node_id = edges_where (λ e. same e.from.node_id node_id) edge_ids

  child_ids : String → List String → List String
  child_ids group_id [] = []
  child_ids group_id (id ∷ ids) =
      let rest = child_ids group_id ids in
      elim (find_node id) [
        | none ↦ rest
        | some n ↦ if same n.parent_id group_id then id ∷ rest else rest
      ]

  unfoldable pub children_of : String → List String
  unfolding child_ids
  children_of group_id = child_ids group_id node_ids
