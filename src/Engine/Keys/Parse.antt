-- ===== src/Engine/Keys/Parse.antt =====
-- `WorkspaceFromDocKey` and `MemoryIdFromDocKey` of src/core/memory_engine.cpp read back what
-- `BuildDocKey` has put into a key.
use poorguy_mem.Common.{
  ℕ, suc, ◌+◌, ◌-◌, ◌≡◌, refl, ap, true, false, some, [], ◌∷◌, ◌++◌, Text, text, text_eq,
  starts_with, find_text, leb, ◌==◌, length, is_empty, take, drop, take-append, length-append,
  arith, All,
}
use poorguy_mem.Engine.Keys.{
  build_doc_key, workspace_before, workspace_from_doc_key, memory_id_from_doc_key,
}

-- A text without the character '/'.
abbrev pub NoSlash : Text → Type 0
NoSlash = All (λ (c : ℕ). (c == 47) ≡ false)

find_text-marker :
    (p s : Text) → NoSlash p → find_text (p ++ (text "/doc/" ++ s)) (text "/doc/") ≡ some (length p)
unfolding find_text starts_with
find_text-marker [] s h = refl
find_text-marker (x ∷ p) s h = rw (find_text, starts_with, h.0, find_text-marker p s h.1) refl

-- The slash of the prefix begins no marker, unless the workspace is called "doc".
starts_with-doc :
    (ws s : Text)
    → NoSlash ws
    → text_eq ws (text "doc") ≡ false
    → starts_with (ws ++ (text "/doc/" ++ s)) (text "doc/") ≡ false
unfolding starts_with text_eq
starts_with-doc [] s h n = refl
starts_with-doc (a ∷ []) s h n = ground arith
starts_with-doc (a ∷ (b ∷ [])) s h n = ground arith
starts_with-doc (a ∷ (b ∷ (c ∷ []))) s h n = ground (arith, n)
starts_with-doc (a ∷ (b ∷ (c ∷ (d ∷ ws)))) s h n = ground (arith, h.1.1.1.0)

find_text-doc_key :
    (ws id : Text)
    → NoSlash ws
    → text_eq ws (text "doc") ≡ false
    → find_text (build_doc_key ws id) (text "/doc/") ≡ some (3 + length ws)
unfolding build_doc_key find_text starts_with
find_text-doc_key ws id h n =
    rw (starts_with-doc ws id h n, find_text-marker ws id h) (ap some (omega arith))

drop-append_plus : (p s : Text) (n : ℕ) → drop (length p + n) (p ++ s) ≡ drop n s
drop-append_plus [] s n = let e : 0 + n ≡ n = omega arith in rw e refl
drop-append_plus (x ∷ p) s n =
    let e : suc (length p) + n ≡ suc (length p + n) = omega arith in rw e (drop-append_plus p s n)

doc_key-starts : (ws id : Text) → starts_with (build_doc_key ws id) (text "ws/") ≡ true
unfolding build_doc_key starts_with
doc_key-starts ws id = refl

doc_key-workspace : (ws id : Text) → take (length ws) (drop 3 (build_doc_key ws id)) ≡ ws
unfolding build_doc_key
doc_key-workspace ws id = take-append ws (text "/doc/" ++ id)

doc_key-id : (ws id : Text) → drop ((3 + length ws) + 5) (build_doc_key ws id) ≡ id
unfolding build_doc_key
doc_key-id ws id =
    let e : (3 + length ws) + 5 ≡ suc (suc (suc (length ws + 5))) = omega arith in
    rw e (drop-append_plus ws (text "/doc/" ++ id) 5)

length-doc_key : (ws id : Text) → length (build_doc_key ws id) ≡ ((3 + length ws) + 5) + length id
unfolding build_doc_key
length-doc_key ws id = omega (arith, length-append ws (text "/doc/" ++ id))

filled-length : (t : Text) → is_empty t ≡ false → leb (length t) 0 ≡ false
filled-length [] h = cc
filled-length (x ∷ t) h = ground arith

workspace_read :
    (ws id : Text)
    → NoSlash ws
    → text_eq ws (text "doc") ≡ false
    → is_empty ws ≡ false
    → workspace_from_doc_key (build_doc_key ws id) ≡ ws
unfolding workspace_from_doc_key workspace_before
workspace_read ws id h n filled =
    let below : leb (3 + length ws) 3 ≡ false = ground (arith, filled-length ws filled) in
    let e : (3 + length ws) - 3 ≡ length ws = omega arith in
    rw (doc_key-starts ws id, find_text-doc_key ws id h n, below, e) (doc_key-workspace ws id)

memory_id_read :
    (ws id : Text)
    → NoSlash ws
    → text_eq ws (text "doc") ≡ false
    → is_empty id ≡ false
    → memory_id_from_doc_key (build_doc_key ws id) ≡ id
unfolding memory_id_from_doc_key
memory_id_read ws id h n named =
    let below : leb (length (build_doc_key ws id)) ((3 + length ws) + 5) ≡ false =
      ground (arith, filled-length id named, length-doc_key ws id) in
    rw (memory_id_from_doc_key, find_text-doc_key ws id h n, below) (doc_key-id ws id)

-- The workspace and the record id are read back from a document key, where the workspace is not
-- empty, holds no slash and is not called "doc", and the id is not empty.
pub doc_key_parts :
    (ws id : Text)
    → NoSlash ws
    → text_eq ws (text "doc") ≡ false
    → is_empty ws ≡ false
    → is_empty id ≡ false
    → (workspace_from_doc_key (build_doc_key ws id) ≡ ws)
      × (memory_id_from_doc_key (build_doc_key ws id) ≡ id)
doc_key_parts ws id h n filled named =
    (workspace_read ws id h n filled, memory_id_read ws id h n named)

-- The workspace called "doc" is not read back: the marker already begins in the prefix of the key.
doc_workspace_lost : (id : Text) → workspace_from_doc_key (build_doc_key (text "doc") id) ≡ []
unfolding workspace_from_doc_key workspace_before build_doc_key find_text starts_with
doc_workspace_lost id = refl
