-- ===== src/Database/Dsn/Fields.antt =====
-- Splitting a printed DSN gives back its fields (internal/db/database.go).
use mathlib.Core.List.{append-nil, append_assoc}
use llama_proxy.Prelude.{
  ℕ, ◌≡◌, refl, sym, ap, ◌∙◌, true, false, List, [], ◌∷◌, ◌++◌, arith, Text, Map, is_empty,
  trim_space, none, ◌==◌, Bool-cases, inl, inr,
}
use llama_proxy.Database.Dsn.{
  single, blank, equals, split_fields, split_dsn_fields, escape, is_special, print_value,
  print_field, print_kv, cut,
}

split_fields-plain :
    (cur w rest : Text)
    → is_special w ≡ false
    → split_fields cur false (w ++ rest) ≡ split_fields (cur ++ w) false rest
unfolding split_fields is_special
split_fields-plain cur [] rest h = rw (append-nil cur) refl
split_fields-plain cur (c ∷ w) rest h =
    ground (arith, h, split_fields-plain (cur ++ c ∷ []) w rest, append_assoc cur (c ∷ []) w)

split_fields-open :
    (cur : Text) (c : ℕ) (s : Text)
    → (c == single) ≡ false
    → split_fields cur true (c ∷ s) ≡ split_fields (cur ++ c ∷ []) true s
unfolding split_fields
split_fields-open cur c s o = ground (arith, o)

escape-single :
    (c : ℕ) (v : Text) → (c == single) ≡ true → escape (c ∷ v) ≡ single ∷ single ∷ escape v
unfolding escape
escape-single c v q = rw q refl

escape-other : (c : ℕ) (v : Text) → (c == single) ≡ false → escape (c ∷ v) ≡ c ∷ escape v
unfolding escape
escape-other c v o = rw o refl

split_fields-escape :
    (cur v rest : Text)
    → split_fields cur true (escape v ++ single ∷ rest)
      ≡ split_fields (cur ++ (escape v ++ single ∷ [])) false rest
unfolding split_fields escape
split_fields-escape cur [] rest = refl
split_fields-escape cur (c ∷ v) rest = elim (Bool-cases (c == single)) [
  | inl q ↦ rw (escape-single c v q) (
      split_fields-escape ((cur ++ single ∷ []) ++ single ∷ []) v rest
      ∙ ap (λ x. split_fields x false rest)
          (append_assoc (cur ++ single ∷ []) (single ∷ []) (escape v ++ single ∷ [])
            ∙ append_assoc cur (single ∷ []) (single ∷ escape v ++ single ∷ [])))
  | inr o ↦ rw (escape-other c v o) (
      split_fields-open cur c (escape v ++ single ∷ rest) o
      ∙ split_fields-escape (cur ++ c ∷ []) v rest
      ∙ ap (λ x. split_fields x false rest) (append_assoc cur (c ∷ []) (escape v ++ single ∷ [])))
]

split_fields-print_value :
    (cur v rest : Text)
    → split_fields cur false (print_value v ++ rest)
      ≡ split_fields (cur ++ print_value v) false rest
unfolding print_value split_fields
split_fields-print_value cur v rest = elim (Bool-cases (is_special v)) [
  | inl q ↦ rw q (
      ap (split_fields (cur ++ single ∷ []) true) (append_assoc (escape v) (single ∷ []) rest)
      ∙ split_fields-escape (cur ++ single ∷ []) v rest
      ∙ ap (λ x. split_fields x false rest)
          (append_assoc cur (single ∷ []) (escape v ++ single ∷ [])))
  | inr o ↦ rw o (split_fields-plain cur v rest o)
]

-- The name of a parameter.
abbrev pub IsName : Text → Type 0
IsName key = (is_special key ≡ false) × (cut key ≡ none) × (trim_space key ≡ key)

split_fields-print_field :
    (key v rest : Text)
    → is_special key ≡ false
    → split_fields [] false (print_field key v ++ rest)
      ≡ split_fields (print_field key v) false rest
unfolding split_fields
split_fields-print_field key v rest plain =
    ap (split_fields [] false) (append_assoc key (equals ∷ print_value v) rest)
    ∙ split_fields-plain [] key (equals ∷ (print_value v ++ rest)) plain
    ∙ split_fields-print_value (key ++ equals ∷ []) v rest
    ∙ ap (λ x. split_fields x false rest) (append_assoc key (equals ∷ []) (print_value v))

unfoldable pub fields_of : Map Text → List Text
fields_of [] = []
fields_of ((key, v) ∷ kv) = print_field key v ∷ fields_of kv

abbrev pub AllNames : Map Text → Type 0
AllNames [] = Unit
AllNames ((key, v) ∷ kv) = IsName key × AllNames kv

print_field-full : (key v : Text) → is_empty (print_field key v) ≡ false
unfolding is_empty
print_field-full [] v = refl
print_field-full (c ∷ key) v = refl

-- A printed DSN splits into the fields that were printed.
pub split_dsn_fields-print_kv :
    (kv : Map Text) → AllNames kv → split_dsn_fields (print_kv kv) ≡ fields_of kv
unfolding split_dsn_fields split_fields print_kv fields_of is_empty
split_dsn_fields-print_kv [] names = refl
split_dsn_fields-print_kv ((key, v) ∷ []) (name, names) =
    ap (split_fields [] false) (sym (append-nil (print_field key v)))
    ∙ split_fields-print_field key v [] name.0
    ∙ rw (print_field-full key v) refl
split_dsn_fields-print_kv ((key, v) ∷ p ∷ kv) (name, names) =
    split_fields-print_field key v (blank ∷ print_kv (p ∷ kv)) name.0
    ∙ rw (print_field-full key v)
        (ap (λ fields. print_field key v ∷ fields) (split_dsn_fields-print_kv (p ∷ kv) names))
