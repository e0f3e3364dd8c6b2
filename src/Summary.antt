-- ===== src/Summary.antt =====
-- `SummaryEngine::Update` of src/core/summary.cpp. The loop runs on fuel: each round drops a line, so
-- as many rounds as there are bytes are enough.
use poorguy_mem.Common.{
  ℕ, zero, suc, ◌+◌, ◌≤◌, ◌≡◌, refl, sym, ◌∙◌, true, false, ◌&&◌, Option, none, some, List, [], ◌∷◌,
  ◌++◌, Text, text, if◌then◌else◌, ltb, length, drop, length-drop, is_empty, find_text, arith,
  Option-cases, Bool-cases, inl, inr, ◌⊎◌,
}
use poorguy_mem.Tokens.{trim, estimate_token_count}

-- `values.back()`, where there is one.
unfoldable pub last : List Text → Option Text
last [] = none
last (x ∷ []) = some x
last (x ∷ y ∷ xs) = last (y ∷ xs)

-- A line with the last of some values, if there are any.
unfoldable pub last_line : Text → List Text → Text
last_line label values = elim (last values) [ none ↦ [] | some v ↦ label ++ (trim v ++ text "\n") ]

-- The text before the loop.
unfoldable pub full_summary : Text → Text → Text → List Text → List Text → Text
full_summary existing_summary user_text assistant_text code_snippets commands =
    (if is_empty existing_summary then [] else existing_summary ++ text "\n")
    ++ (text "User: "
        ++ (trim user_text
            ++ (text "\nAssistant: "
                ++ (trim assistant_text
                    ++ (text "\n"
                        ++ (last_line (text "Code: ") code_snippets
                            ++ last_line (text "Cmd: ") commands))))))

unfoldable pub keep_recent : ℕ → ℕ → Text → Text
keep_recent zero max_tokens out = out
keep_recent (suc fuel) max_tokens out =
    elim (ltb max_tokens (estimate_token_count out) && ltb 64 (length out)) [
      | false ↦ out
      | true ↦ elim (find_text out (text "\n")) [
        | none ↦ out
        | some n ↦ keep_recent fuel max_tokens (drop (suc n) out)
      ]
    ]

-- `SummaryEngine::Update`
unfoldable pub update_summary : Text → Text → Text → List Text → List Text → ℕ → Text
update_summary existing_summary user_text assistant_text code_snippets commands max_tokens =
    let out = full_summary existing_summary user_text assistant_text code_snippets commands in
    keep_recent (length out) max_tokens out

-- Where the loop stops: within the budget, at most 64 bytes, or a single line.
abbrev pub IsSettled : ℕ → Text → Type 0
IsSettled max_tokens out =
    (estimate_token_count out ≤ max_tokens)
    ⊎ ((length out ≤ 64) ⊎ (find_text out (text "\n") ≡ none))

drop-nil {ℓ} : {A : Type ℓ} (n : ℕ) → drop {A = A} n [] ≡ []
drop-nil zero = refl
drop-nil (suc n) = refl

drop-drop {ℓ} : {A : Type ℓ} (m n : ℕ) (xs : List A) → drop n (drop m xs) ≡ drop (m + n) xs
drop-drop zero n xs = let e : 0 + n ≡ n = omega arith in rw e refl
drop-drop (suc m) n [] = drop-nil n ∙ sym (drop-nil (suc m + n))
drop-drop (suc m) n (x ∷ xs) =
    let e : suc m + n ≡ suc (m + n) = omega arith in rw e (drop-drop m n xs)

settled :
    (max_tokens : ℕ) (out : Text)
    → (ltb max_tokens (estimate_token_count out) && ltb 64 (length out)) ≡ false
    → IsSettled max_tokens out
settled max_tokens out h = elim (Bool-cases (ltb max_tokens (estimate_token_count out))) [
  | inl e ↦ inr (inl (ground (arith, rw e at h)))
  | inr e ↦ inl (ground (arith, e))
]

keep_recent-IsSettled :
    (fuel max_tokens : ℕ) (out : Text)
    → length out ≤ fuel
    → IsSettled max_tokens (keep_recent fuel max_tokens out)
      × ((n : ℕ) × (keep_recent fuel max_tokens out ≡ drop n out))
unfolding keep_recent
keep_recent-IsSettled zero max_tokens out h = (inr (inl (omega (arith, h))), (0, refl))
keep_recent-IsSettled (suc fuel) max_tokens out h =
    elim (Bool-cases (ltb max_tokens (estimate_token_count out) && ltb 64 (length out))) [
      | inr e ↦ rw (keep_recent, e) (settled max_tokens out e, (0, refl))
      | inl e ↦ elim (Option-cases (find_text out (text "\n"))) [
        | inl f ↦ rw (keep_recent, e, f) (inr (inr f), (0, refl))
        | inr (n, f) ↦
            let (ok, (m, same)) =
              keep_recent-IsSettled fuel max_tokens (drop (suc n) out)
                (omega (arith, h, length-drop (suc n) out)) in
            rw (keep_recent, e, f) (ok, (suc n + m, same ∙ drop-drop (suc n) m out))
      ]
    ]

-- An update ends: its rounds are enough to reach a summary within the token budget, or of at most 64
-- bytes, or of a single line without an end, and what it keeps is the end of the whole text.
pub update_summary-IsSettled :
    (existing_summary user_text assistant_text : Text) (code_snippets commands : List Text)
    (max_tokens : ℕ)
    → IsSettled max_tokens
        (update_summary existing_summary user_text assistant_text code_snippets commands max_tokens)
      × ((n : ℕ) × (update_summary existing_summary user_text assistant_text code_snippets commands
              max_tokens
            ≡ drop n
                (full_summary existing_summary user_text assistant_text code_snippets commands)))
unfolding update_summary
update_summary-IsSettled existing_summary user_text assistant_text code_snippets commands
      max_tokens =
    keep_recent-IsSettled _ max_tokens _ (omega arith)
