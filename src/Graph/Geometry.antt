-- ===== src/Graph/Geometry.antt =====
-- internal/graph/op_graph.go, the range checks on coordinates, rectangles and the viewport, and the
-- geometric bounds of limits.go.
use ic.Prelude.{Bool, ◌||◌, String}
use ic.Prelude.Int.{pos, negsuc}
use ic.Platform.Errors.{Result, DomainError, new_error, Code, refuse, ◌>>◌}
use ic.Platform.Float.{Float64, ◌/f◌, not_finite, outside}
use ic.Graph.Document.{Rect, Viewport}

abbrev invalid_geometry : String → DomainError
invalid_geometry message = new_error 422 Code.invalid_geometry message

module _ {F : Type 0} ⦃fl : Float64 F⦄ where
  abbrev pub out_of_coord : F → Bool
  out_of_coord = outside (fl.num (negsuc 9_999_999)) (fl.num (pos 10_000_000))

  abbrev out_of_size : F → Bool
  out_of_size = outside (fl.num (pos 16)) (fl.num (pos 20_000))

  -- 0.05, the correctly rounded quotient, to 5.
  abbrev out_of_zoom : F → Bool
  out_of_zoom = outside (fl.num (pos 1) /f fl.num (pos 20)) (fl.num (pos 5))

  unfoldable pub check_coord : F → Result (Unit {0})
  check_coord v = do
    refuse (not_finite v) (invalid_geometry "coordinate must be a finite number")
    refuse (out_of_coord v) (invalid_geometry "coordinate out of range")

  unfoldable pub validate_rect : Rect F → Result (Unit {0})
  validate_rect r = do
    refuse (not_finite r.x || not_finite r.y || not_finite r.w || not_finite r.h)
        (invalid_geometry "rect has non-finite value")
    refuse (out_of_coord r.x || out_of_coord r.y) (invalid_geometry "rect origin out of range")
    refuse (out_of_size r.w || out_of_size r.h) (invalid_geometry "rect size out of range")

  unfoldable pub validate_viewport : Viewport F → Result (Unit {0})
  validate_viewport v = do
    refuse (not_finite v.x || not_finite v.y || not_finite v.k)
        (invalid_geometry "viewport contains non-finite value")
    refuse (out_of_coord v.x || out_of_coord v.y) (invalid_geometry "viewport origin out of range")
    refuse (out_of_zoom v.k) (invalid_geometry "zoom out of range")
