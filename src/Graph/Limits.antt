-- ===== src/Graph/Limits.antt =====
-- internal/graph/limits.go: the bounds on a canvas and on a request.
use ic.Prelude.{ℕ, ◌^◌, ◌*◌}

abbrev pub max_op_batch : ℕ
max_op_batch = 1000

abbrev pub max_request_bytes : ℕ
max_request_bytes = 2 ^ 20

abbrev pub max_nodes_per_canvas : ℕ
max_nodes_per_canvas = 200_000

abbrev pub max_title_len : ℕ
max_title_len = 200

abbrev pub max_prompt_bytes : ℕ
max_prompt_bytes = 32 * 1024

abbrev pub max_variants_per_node : ℕ
max_variants_per_node = 15

abbrev pub max_group_depth : ℕ
max_group_depth = 8

abbrev pub max_edges_per_canvas : ℕ
max_edges_per_canvas = 400_000

abbrev pub max_id_len : ℕ
max_id_len = 64

abbrev pub max_meta_keys : ℕ
max_meta_keys = 64

abbrev pub max_meta_key_len : ℕ
max_meta_key_len = 128
