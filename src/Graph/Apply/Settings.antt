-- ===== src/Graph/Apply/Settings.antt =====
-- internal/graph/op_apply.go: set_viewport and set_settings.
use ic.Prelude.{String, Bool, ◌||◌, [], ◌∷◌, Option, none, some, if◌then◌else◌, same}
use ic.Platform.Errors.{Result, ok, err, refuse, or_fail, ◌>>=◌, ◌>>◌}
use ic.Platform.Float.{Float64}
use ic.Graph.Document.{Document, Viewport, CanvasSettings, Json, bool, text, Spec}
use ic.Graph.Geometry.{validate_viewport}
use ic.Graph.Schema.{invalid_spec}
use ic.Graph.Operation.{set_viewport, set_settings, one}
use ic.Graph.Apply.Nodes.{Effect}
use ic.Graph.Apply.Config.{is_empty}

module _ {F : Type 0} ⦃fl : Float64 F⦄ where
  unfoldable pub apply_set_viewport : Document F → Viewport F → Effect F
  apply_set_viewport doc v = do
    validate_viewport v
    ok (record doc { viewport = v }, one (set_viewport doc.viewport))

  abbrev bool_of : Json F → Option Bool
  bool_of (bool b) = some b
  bool_of _ = none

  abbrev background_of : Json F → Option String
  background_of (text s) =
      if same s "lines" || same s "dots" || same s "blank" then some s else none
  background_of _ = none

  unfoldable pub set_setting : String → Json F → CanvasSettings → Result CanvasSettings
  set_setting k v next =
      if same k "background"
      then (do
        s ← or_fail (background_of v) (invalid_spec "background must be lines|dots|blank")
        ok (record next { background = s }))
      else if same k "imageInfo"
      then (do
        b ← or_fail (bool_of v) (invalid_spec "imageInfo must be bool")
        ok (record next { image_info = b }))
      else if same k "gridSnap"
      then (do
        b ← or_fail (bool_of v) (invalid_spec "gridSnap must be bool")
        ok (record next { grid_snap = b }))
      else if same k "readOnly"
      then (do
        b ← or_fail (bool_of v) (invalid_spec "readOnly must be bool")
        ok (record next { read_only = b }))
      else if same k "freeResize"
      then (do
        b ← or_fail (bool_of v) (invalid_spec "freeResize must be bool")
        ok (record next { free_resize = b }))
      else err (invalid_spec "unknown setting")

  unfoldable pub set_all : Spec F → CanvasSettings → Result CanvasSettings
  set_all [] next = ok next
  set_all ((k, v) ∷ rest) next = do next' ← set_setting k v next; set_all rest next'

  abbrev pub settings_map : CanvasSettings → Spec F
  settings_map s =
      ("background", text s.background)
      ∷ ("imageInfo", bool s.image_info)
      ∷ ("gridSnap", bool s.grid_snap)
      ∷ ("readOnly", bool s.read_only)
      ∷ ("freeResize", bool s.free_resize)
      ∷ []

  unfoldable pub apply_set_settings : Document F → Spec F → Effect F
  apply_set_settings doc settings = do
    refuse (is_empty settings) (invalid_spec "set_settings requires settings")
    next ← set_all settings doc.settings
    ok (record doc { settings = next }, one (set_settings (settings_map doc.settings)))
