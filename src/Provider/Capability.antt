-- ===== src/Provider/Capability.antt =====
-- internal/provider/capability.go: the names of what a model can do.
use ic.Prelude.{
  String, Bool, List, [], ◌∷◌, any, same, trim_space, if◌then◌else◌, ◌||◌, Option, some, none,
}

abbrev pub all_capabilities : List String
all_capabilities =
    "image.generate" ∷ "image.edit" ∷ "image.upscale" ∷ "video.generate" ∷ "text.generate"
    ∷ "text.tools" ∷ "audio.generate" ∷ "model.list" ∷ []

unfoldable pub valid_capability : String → Bool
valid_capability c = any (same c) all_capabilities

-- The capability without the space around it, if it is known.
unfoldable pub parse_capability : String → Option String
parse_capability s = if valid_capability (trim_space s) then some (trim_space s) else none

unfoldable pub resource_kind : String → String
resource_kind c =
    if same c "image.generate" || same c "image.edit" || same c "image.upscale"
    then "image"
    else if same c "video.generate"
    then "video"
    else if same c "text.generate" || same c "text.tools"
    then "text"
    else if same c "audio.generate"
    then "audio"
    else "file"
