-- ===== src/Config/ModelIds.antt =====
-- internal/config/validate.go: `ValidateModelIDs`.
use llama_proxy.Prelude.{
  Distinct, ◌≡◌, ◌≢◌, ◌↔◌, refl, sym, ap, ◌∙◌, Bool, true, false, ◌⊎◌, inl, inr, Option, none, some,
  List, [], ◌∷◌, ◌++◌, arith, Text, codes, Map, In, keys, lookup, insert, lookup-insert, eq_text,
  eq_text→eq, eq_text_refl, is_empty, trim_space, member, is_some, not, ◌&&◌, subst, Bool-cases,
  if◌then◌else◌,
}
use llama_proxy.Config.{BackendConfig, YamlConfig}

-- Where a model ID is configured.
pub data Location : Type 0 where
  backends_list : Text → Location
  scheduling : Text → Location

pub data IdError : Type 0 where
  reserved_id : Text → Location → IdError
  duplicate_id : Text → Location → Location → IdError

-- The constant `proxyID`.
abbrev pub proxy_id : Text
proxy_id = codes "llama_proxy"

-- The closure `locate`: the map `seen` after the call, or its error.
unfoldable pub locate : Map Location → Text → Location → IdError ⊎ Map Location
locate seen model_id where' =
    if eq_text model_id proxy_id
    then inl (reserved_id model_id where')
    else elim (lookup model_id seen) [
      | some prev ↦ inl (duplicate_id model_id prev where')
      | none ↦ inr (insert model_id where' seen)
    ]

unfoldable pub locate_backends : Map Location → List BackendConfig → IdError ⊎ Map Location
locate_backends seen [] = inr seen
locate_backends seen (b ∷ bs) =
    let model = trim_space b.model in
    if is_empty model
    then locate_backends seen bs
    else elim (locate seen model (backends_list b.name)) [
      | inl x ↦ inl x
      | inr seen' ↦ locate_backends seen' bs
    ]

unfoldable pub locate_models : Map Location → List Text → Option IdError
locate_models seen [] = none
locate_models seen (id ∷ ids) = elim (locate seen id (scheduling id)) [
  | inl x ↦ some x
  | inr seen' ↦ locate_models seen' ids
]

unfoldable pub scheduled_ids : YamlConfig → List Text
scheduled_ids c = elim c.scheduling [ none ↦ [] | some sc ↦ keys sc.models ]

unfoldable pub validate_model_ids : YamlConfig → Option IdError
validate_model_ids c = elim (locate_backends [] c.backends) [
  | inl x ↦ some x
  | inr seen ↦ locate_models seen (scheduled_ids c)
]

-- The model IDs that the backends declare.
unfoldable pub backend_ids : List BackendConfig → List Text
backend_ids [] = []
backend_ids (b ∷ bs) =
    let rest = backend_ids bs in
    let model = trim_space b.model in if is_empty model then rest else model ∷ rest

-- Every model ID that a request can name, in the order of the check.
unfoldable pub configured_ids : YamlConfig → List Text
unfolding backend_ids scheduled_ids
configured_ids c = backend_ids c.backends ++ scheduled_ids c

-- No ID is the reserved one, and none stands twice.
pub record IsUnambiguous (ids : List Text) : Type 0 where
  pub unreserved : (x : Text) → In x ids → x ≢ proxy_id
  pub distinct : Distinct ids

-- The same check with the IDs in one list, and the taken ones in another.
ids_fit : List Text → List Text → Bool
ids_fit used [] = true
ids_fit used (x ∷ xs) = not (eq_text x proxy_id) && (not (member x used) && ids_fit (x ∷ used) xs)

abbrev Agrees : Map Location → List Text → Type 0
Agrees seen used = (x : Text) → is_some (lookup x seen) ≡ member x used

abbrev accepts : Option IdError → Bool
accepts none = true
accepts (some x) = false

insert-Agrees :
    (seen : Map Location) (used : List Text) (x : Text) (w : Location)
    → Agrees seen used
    → Agrees (insert x w seen) (x ∷ used)
unfolding member
insert-Agrees seen used x w h y = ground (arith, lookup-insert x y w seen, h y)

locate_models-ids_fit :
    (seen : Map Location) (used ids : List Text)
    → Agrees seen used
    → accepts (locate_models seen ids) ≡ ids_fit used ids
unfolding locate_models locate ids_fit
locate_models-ids_fit seen used [] h = refl
locate_models-ids_fit seen used (x ∷ xs) h = ground (
  arith,
  h x,
  locate_models-ids_fit (insert x (scheduling x) seen) (x ∷ used) xs
      (insert-Agrees seen used x (scheduling x) h),
)

abbrev then_models : List Text → IdError ⊎ Map Location → Option IdError
then_models ids (inl x) = some x
then_models ids (inr seen) = locate_models seen ids

locate_backends-ids_fit :
    (seen : Map Location) (used : List Text) (bs : List BackendConfig) (ids : List Text)
    → Agrees seen used
    → accepts (then_models ids (locate_backends seen bs)) ≡ ids_fit used (backend_ids bs ++ ids)
unfolding locate_backends locate backend_ids ids_fit
locate_backends-ids_fit seen used [] ids h = locate_models-ids_fit seen used ids h
locate_backends-ids_fit seen used (b ∷ bs) ids h =
    let x = trim_space b.model in
    ground (
      arith,
      h x,
      locate_backends-ids_fit seen used bs ids h,
      locate_backends-ids_fit (insert x (backends_list b.name) seen) (x ∷ used) bs ids
          (insert-Agrees seen used x (backends_list b.name) h),
    )

ids_fit-used :
    (used ids : List Text) (x : Text) → ids_fit used ids ≡ true → In x ids → member x used ≡ false
unfolding ids_fit member
ids_fit-used used [] x h here = absurd here
ids_fit-used used (y ∷ ys) x h (inl e) = rw (← e) (ground arith)
ids_fit-used used (y ∷ ys) x h (inr m) = ground (arith, ids_fit-used (y ∷ used) ys x)

ids_fit-unreserved :
    (used ids : List Text) (x : Text) → ids_fit used ids ≡ true → In x ids → x ≢ proxy_id
unfolding ids_fit
ids_fit-unreserved used [] x h here = absurd here
ids_fit-unreserved used (y ∷ ys) x h (inl e) = λ r. cc (eq_text_refl proxy_id, e, r, the_test)
  where
    the_test : eq_text y proxy_id ≡ false
    the_test = ground arith
ids_fit-unreserved used (y ∷ ys) x h (inr m) = ids_fit-unreserved (y ∷ used) ys x (ground arith) m

ids_fit-Distinct : (used ids : List Text) → ids_fit used ids ≡ true → Distinct ids
unfolding ids_fit member
ids_fit-Distinct used [] h = tt
ids_fit-Distinct used (y ∷ ys) h = (apart, ids_fit-Distinct (y ∷ used) ys (ground arith))
  where
    apart : In y ys → ⊥
    apart m = ground (arith, ids_fit-used (y ∷ used) ys y (ground arith) m, eq_text_refl y)

IsUnambiguous-ids_fit :
    (used ids : List Text)
    → ((x : Text) → In x ids → member x used ≡ false)
    → IsUnambiguous ids
    → ids_fit used ids ≡ true
unfolding ids_fit member
IsUnambiguous-ids_fit used [] free ok = refl
IsUnambiguous-ids_fit used (y ∷ ys) free ok = ground (
  arith,
  free y (inl refl),
  eq_text→eq y proxy_id,
  ok.unreserved y (inl refl),
  IsUnambiguous-ids_fit (y ∷ used) ys still
      (record { unreserved = λ x m. ok.unreserved x (inr m); distinct = ok.distinct.1 }),
)
  where
    still : (x : Text) → In x ys → member x (y ∷ used) ≡ false
    still x m = elim (Bool-cases (eq_text y x)) [
      | inl e ↦ absurd (ok.distinct.0 (subst (λ z. In z ys) (sym (eq_text→eq y x e)) m))
      | inr e ↦ rw e (free x (inr m))
    ]

nothing-Agrees : Agrees [] []
unfolding member lookup
nothing-Agrees x = refl

validate_model_ids-ids_fit :
    (c : YamlConfig) → accepts (validate_model_ids c) ≡ ids_fit [] (configured_ids c)
unfolding validate_model_ids configured_ids
validate_model_ids-ids_fit c =
    ground (arith, locate_backends-ids_fit [] [] c.backends (scheduled_ids c) nothing-Agrees)

-- `ValidateModelIDs` accepts a configuration exactly when no configured model ID (the trimmed
-- non-empty models of the backends, then the keys of `scheduling`) is `llama_proxy` and none occurs
-- twice.
pub validate_model_ids-exact :
    (c : YamlConfig) → (validate_model_ids c ≡ none) ↔ IsUnambiguous (configured_ids c)
validate_model_ids-exact c = (
  λ h.
      let fits : ids_fit [] (configured_ids c) ≡ true =
        sym (validate_model_ids-ids_fit c) ∙ ap accepts h in
      record {
        unreserved = λ x. ids_fit-unreserved [] (configured_ids c) x fits;
        distinct = ids_fit-Distinct [] (configured_ids c) fits;
      },
  λ ok. ground (
    arith,
    validate_model_ids-ids_fit c,
    IsUnambiguous-ids_fit [] (configured_ids c) (λ x m. unfold member in refl) ok,
  ),
)
