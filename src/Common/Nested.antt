-- ===== src/Common/Nested.antt =====
-- Maps of containers: what stands under an outer and an inner key.
use mathlib.Core.Path.{◌≡◌, refl, sym}
use mathlib.Core.Bool.{◌&&◌}
use mathlib.Core.Option.{Option, none, some}
use mathlib.Core.Logic.{inl, inr}
use poorguy_mem.Common.Tests.{if◌then◌else◌, Bool-cases}
use poorguy_mem.Common.Texts.{Text, text_eq, text_eq_iff}
use poorguy_mem.Common.Maps.{Map, find, insert, erase, find-insert, find-erase}

-- One place of an abstract map of two keys: the new value there, the old one elsewhere.
abbrev pub written {ℓ} : {A : Type ℓ} → Text → Text → Text → Text → A → A → A
written ws id ws' id' new old = if text_eq ws ws' && text_eq id id' then new else old

module _ {ℓ κ} {A : Type ℓ} {V : Type κ} (inner : A → Map V) where
  abbrev pub nested : Map A → Text → Text → Option V
  nested m ws id = elim (find ws m) [ none ↦ none | some a ↦ find id (inner a) ]

  pub nested-insert :
      (ws id : Text) (a : A) (new : Option V) (m : Map A)
      → ((j : Text) → find j (inner a) ≡ (if text_eq id j then new else nested m ws j))
      → (ws' id' : Text)
      → nested (insert ws a m) ws' id' ≡ written ws id ws' id' new (nested m ws' id')
  nested-insert ws id a new m h ws' id' = elim (Bool-cases (text_eq ws ws')) [
    | inl e ↦
        let p : ws ≡ ws' = (text_eq_iff ws ws').0 e in rw (nested, find-insert, e, ← p) (h id')
    | inr e ↦ rw (nested, find-insert, e) refl
  ]

  pub nested-erase :
      (ws id : Text) (m : Map A)
      → ((j : Text) → (if text_eq id j then none else nested m ws j) ≡ none)
      → (ws' id' : Text)
      → nested (erase ws m) ws' id' ≡ written ws id ws' id' none (nested m ws' id')
  nested-erase ws id m h ws' id' = elim (Bool-cases (text_eq ws ws')) [
    | inl e ↦
        let p : ws ≡ ws' = (text_eq_iff ws ws').0 e in rw (nested, find-erase, e, ← p) (sym (h id'))
    | inr e ↦ rw (nested, find-erase, e) refl
  ]

  -- Where nothing stands, nothing is removed.
  pub nested-same :
      (ws id : Text) (m : Map A)
      → nested m ws id ≡ none
      → (ws' id' : Text) → nested m ws' id' ≡ written ws id ws' id' none (nested m ws' id')
  nested-same ws id m h ws' id' = elim (Bool-cases (text_eq ws ws')) [
    | inl e ↦ elim (Bool-cases (text_eq id id')) [
      | inl f ↦
          let p : ws ≡ ws' = (text_eq_iff ws ws').0 e in
          let q : id ≡ id' = (text_eq_iff id id').0 f in rw (e, f, ← p, ← q) h
      | inr f ↦ rw (e, f) refl
    ]
    | inr e ↦ rw e refl
  ]
