-- ===== src/Engine/Keys.antt =====
-- The keys of src/core/memory_engine.cpp: the namespaces, the builders, and the functions that read
-- the workspace and the record id back from a key.
pub mod Digits
pub mod Parse
use poorguy_mem.Common.{
  ℕ, zero, suc, ◌+◌, ◌-◌, ◌*◌, ◌/◌, ◌%◌, ◌≡◌, refl, Bool, ◌||◌, not, Option, none, some, List, [],
  ◌∷◌, ◌++◌, Text, text, if◌then◌else◌, ◌==◌, leb, length, is_empty, take, drop, replicate,
  starts_with, find_text,
}
use poorguy_mem.Tokens.{to_lower}

abbrev pub doc_ns : Text
doc_ns = text "mem_docs"

abbrev pub term_dict_ns : Text
term_dict_ns = text "mem_term_dict"

abbrev pub posting_blk_ns : Text
posting_blk_ns = text "mem_posting_blk"

abbrev pub vec_code_ns : Text
vec_code_ns = text "mem_vec_code"

abbrev pub vec_fp_ns : Text
vec_fp_ns = text "mem_vec_fp"

abbrev pub route_meta_ns : Text
route_meta_ns = text "mem_route_meta"

abbrev pub events_ns : Text
events_ns = text "ds_events"

abbrev pub projection_ckpt_ns : Text
projection_ckpt_ns = text "ds_projection_ckpt"

-- The last `width` decimal digits, the most significant first.
unfoldable pub decimal_digits : ℕ → ℕ → Text
decimal_digits zero n = []
decimal_digits (suc width) n = decimal_digits width (n / 10) ++ (48 + n % 10) ∷ []

-- How many digits `std::to_string` writes; 20 rounds are enough for a `uint64_t`.
unfoldable pub digit_count : ℕ → ℕ → ℕ
digit_count zero n = 1
digit_count (suc fuel) n = let rest = suc (digit_count fuel (n / 10)) in if leb n 9 then 1 else rest

unfoldable pub decimal : ℕ → Text
unfolding decimal_digits digit_count
decimal n = decimal_digits (digit_count 20 n) n

-- `std::setw(20) << std::setfill('0')`
unfoldable pub zero_pad_uint64 : ℕ → Text
unfolding decimal
zero_pad_uint64 v = replicate (20 - length (decimal v)) 48 ++ decimal v

unfoldable pub build_doc_key : Text → Text → Text
build_doc_key workspace_id memory_id = text "ws/" ++ (workspace_id ++ (text "/doc/" ++ memory_id))

unfoldable pub build_term_dict_key : Text → Text → Text
build_term_dict_key workspace_id term = text "ws/" ++ (workspace_id ++ (text "/term/" ++ term))

unfoldable pub build_posting_key : Text → Text → ℕ → Text → Text
build_posting_key workspace_id term bucket memory_id =
    text "ws/"
    ++ (workspace_id
        ++ (text "/term/"
            ++ (term ++ (text "/b/" ++ (decimal bucket ++ (text "/blk/" ++ memory_id))))))

unfoldable pub build_vec_code_key : Text → ℕ → Text → Text
build_vec_code_key workspace_id bucket memory_id =
    text "ws/" ++ (workspace_id ++ (text "/vec/" ++ (decimal bucket ++ (text "/" ++ memory_id))))

unfoldable pub build_vec_fp_key : Text → Text → Text
build_vec_fp_key workspace_id memory_id =
    text "ws/" ++ (workspace_id ++ (text "/vecfp/" ++ memory_id))

unfoldable pub build_route_meta_key : Text → Text
build_route_meta_key workspace_id = text "ws/" ++ workspace_id

unfoldable pub build_event_key : Text → ℕ → ℕ → Text
build_event_key workspace_id ts seq =
    text "ws/"
    ++ (workspace_id
        ++ (text "/ts/" ++ (zero_pad_uint64 ts ++ (text "/seq/" ++ zero_pad_uint64 seq))))

unfoldable pub build_ckpt_key : Text → Text
build_ckpt_key workspace_id = text "ws/" ++ workspace_id

-- What stands between the prefix "ws/" and the first occurrence of `marker`; empty where the key
-- has no such form.
unfoldable pub workspace_before : Text → Text → Text
workspace_before marker key =
    if starts_with key (text "ws/")
    then elim (find_text key marker) [
      | none ↦ []
      | some pos ↦ if leb pos 3 then [] else take (pos - 3) (drop 3 key)
    ]
    else []

unfoldable pub workspace_from_doc_key : Text → Text
workspace_from_doc_key doc_key = workspace_before (text "/doc/") doc_key

unfoldable pub memory_id_from_doc_key : Text → Text
memory_id_from_doc_key doc_key = elim (find_text doc_key (text "/doc/")) [
  | none ↦ []
  | some pos ↦ if leb (length doc_key) (pos + 5) then [] else drop (pos + 5) doc_key
]

unfoldable pub workspace_from_event_key : Text → Text
workspace_from_event_key event_key = workspace_before (text "/ts/") event_key

unfoldable pub record_map_key : Text → Text → Text
record_map_key workspace_id memory_id = workspace_id ++ (text ":" ++ memory_id)

unfoldable pub is_missing_scan_namespace_error : Text → Bool
is_missing_scan_namespace_error error =
    if is_empty error
    then Bool.false
    else elim (find_text (to_lower error) (text "resource not found")) [
      | none ↦ Bool.false
      | some pos ↦ Bool.true
    ]

zero_pad_runs : zero_pad_uint64 1739923200123 ≡ text "00000001739923200123"
unfolding zero_pad_uint64
zero_pad_runs = refl
