-- ===== src/Graph/Operation.antt =====
-- internal/graph/op.go: the operations with their payloads, as `DecodeOp` hands them on. A payload
-- field that is a pointer in the source is an `Option`.
use ic.Prelude.{ℕ, String, Bool, List, Option}
use ic.Graph.Document.{Spec, Rect, Viewport, Node, NodeResult, NodeError, Edge}

pub record AddNode (F : Type 0) : Type 0 where
  pub node : Node F

pub record RemoveNode : Type 0 where
  pub id : String
  pub cascade : Option Bool

pub record MoveNode (F : Type 0) : Type 0 where
  pub id : String
  pub x : F
  pub y : F
  pub delta : Bool

pub record ResizeNode (F : Type 0) : Type 0 where
  pub id : String
  pub w : F
  pub h : F
  pub keep_aspect : Bool

pub record SetTitle : Type 0 where
  pub id : String
  pub title : String

pub record SetSpec (F : Type 0) : Type 0 where
  pub id : String
  pub patch : Spec F
  pub unset : List String
  pub meta : Spec F
  pub meta_unset : List String

pub record SetState : Type 0 where
  pub id : String
  pub state : String
  pub result : Option NodeResult
  pub error : Option NodeError

pub record Group (F : Type 0) : Type 0 where
  pub node_ids : List String
  pub group_id : String
  pub title : String
  pub rect : Option (Rect F)

pub record Ungroup : Type 0 where
  pub group_id : String
  pub keep_children : Option Bool

pub record SetParent : Type 0 where
  pub id : String
  pub parent_id : String

pub data Op (F : Type 0) : Type 0 where
  add_node : AddNode F → Op F
  remove_node : RemoveNode → Op F
  move_node : MoveNode F → Op F
  resize_node : ResizeNode F → Op F
  set_title : SetTitle → Op F
  set_spec : SetSpec F → Op F
  set_state : SetState → Op F
  add_edge : Edge → Op F
  remove_edge : String → Op F
  group : Group F → Op F
  ungroup : Ungroup → Op F
  set_viewport : Viewport F → Op F
  set_settings : Spec F → Op F
  set_parent : SetParent → Op F

-- The reverse of an operation is the JSON of one operation, or of an array of them.
pub data Inverse (F : Type 0) : Type 0 where
  one : Op F → Inverse F
  many : List (Op F) → Inverse F

-- What encoding/json makes of a raw operation: its size in bytes, its `kind` if that can be read,
-- and its payload read strictly into the structure of the kind. `none` is a decoding error.
pub record RawOp (F : Type 0) : Type 0 where
  pub size : ℕ
  pub kind : Option String
  pub payload : Option (Op F)
