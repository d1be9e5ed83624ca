-- ===== src/Database/Dsn/RoundTrip.antt =====
-- A printed DSN parses to the parameters that were printed (internal/db/database.go).
use mathlib.Core.List.{append-nil, append_assoc, reverse, reverse-append, reverse-reverse}
use llama_proxy.Prelude.{
  In-last, ℕ, ◌≡◌, refl, sym, ap, ◌∙◌, true, false, none, some, List, [], ◌∷◌, ◌++◌, arith, Text,
  Map, In, Distinct, keys, insert, is_empty, is_space, trim_space, trim_left_if, trim_right_if,
  ◌==◌, Bool-cases, Option-cases, ◌⊎◌, inl, inr, eq_text, eq_text_iff, subst,
}
use llama_proxy.Database.Dsn.{
  single, equals, cut, unescape, escape, front, ends_quoted, unquote, parse_fields, parse_kv,
  is_special, print_value, print_field, print_kv,
}
use llama_proxy.Database.Dsn.Fields.{AllNames, fields_of, split_dsn_fields-print_kv}

cut-none : (c : ℕ) (key : Text) → cut (c ∷ key) ≡ none → ((c == equals) ≡ false) × (cut key ≡ none)
unfolding cut
cut-none c key h = elim (Bool-cases (c == equals)) [
  | inl e ↦ ground (arith, h, e)
  | inr o ↦ elim (Option-cases (cut key)) [
    | inl z ↦ (o, z)
    | inr (p, some_cut) ↦ ground (arith, h, o, some_cut)
  ]
]

cut-append : (key s : Text) → cut key ≡ none → cut (key ++ equals ∷ s) ≡ some (key, s)
unfolding cut
cut-append [] s h = refl
cut-append (c ∷ key) s h = let (o, z) = cut-none c key h in ground (arith, o, cut-append key s z)

unescape-other : (c : ℕ) (s : Text) → (c == single) ≡ false → unescape (c ∷ s) ≡ c ∷ unescape s
unfolding unescape
unescape-other c [] o = refl
unescape-other c (d ∷ s) o = ground (arith, o)

unescape-escape : (v : Text) → unescape (escape v) ≡ v
unfolding unescape escape
unescape-escape [] = refl
unescape-escape (c ∷ v) = elim (Bool-cases (c == single)) [
  | inl q ↦ ground (arith, q, unescape-escape v)
  | inr o ↦ rw o (unescape-other c (escape v) o ∙ ap (λ x. c ∷ x) (unescape-escape v))
]

front-append : (w : Text) (c : ℕ) → front (w ++ c ∷ []) ≡ w
unfolding front
front-append [] c = refl
front-append (a ∷ []) c = refl
front-append (a ∷ b ∷ w) c = ap (λ x. a ∷ x) (front-append (b ∷ w) c)

ends_quoted-append : (w : Text) → ends_quoted (w ++ single ∷ []) ≡ true
unfolding ends_quoted
ends_quoted-append [] = refl
ends_quoted-append (a ∷ []) = refl
ends_quoted-append (a ∷ b ∷ w) = ends_quoted-append (b ∷ w)

trim_space-quoted :
    (w : Text) → trim_space (single ∷ (w ++ single ∷ [])) ≡ single ∷ (w ++ single ∷ [])
unfolding trim_space trim_left_if trim_right_if is_space
trim_space-quoted w =
    ap (λ r. reverse (trim_left_if is_space r)) (reverse-append (single ∷ w) (single ∷ []))
    ∙ ap reverse (sym (reverse-append (single ∷ w) (single ∷ [])))
    ∙ reverse-reverse (single ∷ (w ++ single ∷ []))

-- The parameter's value is read back: it is quoted, or nothing is trimmed from it.
abbrev pub IsValue : Text → Type 0
IsValue v = (is_special v ≡ true) ⊎ (trim_space v ≡ v)

unquote-quoted : (w : Text) → unquote (single ∷ (w ++ single ∷ [])) ≡ unescape w
unfolding unquote is_empty
unquote-quoted [] = refl
unquote-quoted (a ∷ w) = rw (ends_quoted-append (a ∷ w), front-append (a ∷ w) single) refl

unquote-plain : (v : Text) → is_special v ≡ false → unquote v ≡ v
unfolding unquote is_special
unquote-plain [] h = refl
unquote-plain (c ∷ s) h = ground (arith, h)

unquote-print_value : (v : Text) → IsValue v → unquote (trim_space (print_value v)) ≡ v
unfolding print_value
unquote-print_value v h = elim (Bool-cases (is_special v)) [
  | inl q ↦
      rw q
        (ap unquote (trim_space-quoted (escape v)) ∙ unquote-quoted (escape v) ∙ unescape-escape v)
  | inr o ↦ elim h [
    | inl q ↦ ground (arith, q, o)
    | inr t ↦ rw o (ap unquote t ∙ unquote-plain v o)
  ]
]

abbrev pub AllValues : Map Text → Type 0
AllValues [] = Unit
AllValues ((key, v) ∷ kv) = IsValue v × AllValues kv

insert-new : (key v : Text) (m : Map Text) → ¬ In key (keys m) → insert key v m ≡ m ++ (key, v) ∷ []
unfolding insert keys
insert-new key v [] h = refl
insert-new key v ((j, w) ∷ m) h = elim (Bool-cases (eq_text j key)) [
  | inl e ↦ absurd (h (inl ((eq_text_iff j key).0 e)))
  | inr o ↦ rw o (ap (λ r. (j, w) ∷ r) (insert-new key v m (λ later. h (inr later))))
]

-- None of the names is in the map, and none occurs twice.
abbrev Fresh : Map Text → Map Text → Type 0
Fresh m [] = Unit
Fresh m ((key, v) ∷ kv) = (¬ In key (keys m)) × Fresh (m ++ (key, v) ∷ []) kv

parse_fields-cut :
    (m : Map Text) (field : Text) (fields : List Text) (key val : Text)
    → cut field ≡ some (key, val)
    → parse_fields m (field ∷ fields)
      ≡ parse_fields (insert (trim_space key) (unquote (trim_space val)) m) fields
unfolding parse_fields
parse_fields-cut m field fields key val h = rw (h, parse_fields) refl

parse_fields-fields_of :
    (m kv : Map Text)
    → AllNames kv
    → AllValues kv
    → Fresh m kv
    → parse_fields m (fields_of kv) ≡ inr (m ++ kv)
unfolding parse_fields fields_of
parse_fields-fields_of m [] names values fresh = rw (append-nil m) refl
parse_fields-fields_of m ((key, v) ∷ kv) (name, names) (value, values) (new, fresh) =
    parse_fields-cut m (print_field key v) (fields_of kv) key (print_value v)
      (cut-append key (print_value v) name.1)
    ∙ rw (name.2, unquote-print_value v value, insert-new key v m new)
        (parse_fields-fields_of (m ++ (key, v) ∷ []) kv names values fresh
          ∙ ap inr (append_assoc m ((key, v) ∷ []) kv))

keys-append : (m n : Map Text) → keys (m ++ n) ≡ keys m ++ keys n
unfolding keys
keys-append [] n = refl
keys-append ((j, w) ∷ m) n = ap (λ r. j ∷ r) (keys-append m n)

Distinct-Fresh :
    (m kv : Map Text)
    → Distinct (keys kv)
    → ((k : Text) → In k (keys m) → ¬ In k (keys kv))
    → Fresh m kv
unfolding keys
Distinct-Fresh m [] once apart = tt
Distinct-Fresh m ((key, v) ∷ kv) (new, once) apart = (
  (λ h. apart key h (inl refl)),
  Distinct-Fresh (m ++ (key, v) ∷ []) kv once (λ k h.
      elim (In-last k key (keys m) (subst (In k) (keys-append m ((key, v) ∷ [])) h)) [
        | inr old ↦ λ later. apart k old (inr later)
        | inl same ↦ λ later. new (subst (λ x. In x (keys kv)) (sym same) later)
      ]),
)

-- Parameters that are printed as a DSN are read back as they were, when no name occurs twice, each name has no
-- blank, quote, backslash or equals sign and no white space around it, and each value has a blank, a
-- quote or a backslash in it, so that it is quoted, or no white space around it.
pub parse_kv-print_kv :
    (kv : Map Text)
    → AllNames kv
    → AllValues kv
    → Distinct (keys kv)
    → parse_kv (print_kv kv) ≡ inr kv
unfolding parse_kv keys
parse_kv-print_kv kv names values once =
    ap (parse_fields []) (split_dsn_fields-print_kv kv names)
    ∙ parse_fields-fields_of [] kv names values (Distinct-Fresh [] kv once (λ k h. absurd h))
