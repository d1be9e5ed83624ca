-- ===== src/Routing.antt =====
-- The routing rules (proxy_routing.go) and the recorded paths (proxy.go). net/textproto's
-- CanonicalMIMEHeaderKey, strings.ToLower and the name of a rule without one (fmt.Sprintf) are
-- parameters. A request's header is a map from canonical names to the first value of each: net/http
-- stores no name without a value.
pub mod Matching
pub mod Rules
use llama_proxy.Prelude.{
  ℕ, ◌+◌, Bool, true, false, not, ◌&&◌, ◌||◌, Option, none, some, List, [], ◌∷◌, ◌++◌, Text, codes,
  Map, lookup, eq_text, is_empty, trim_space, trim_left_if, trim_right_if, has_prefix, contains,
  if◌then◌else◌, ltb, length, ◌==◌,
}
use llama_proxy.Config.{RoutingRule, YamlConfig}

pub record RouteRule : Type 0 where
  pub name : Text
  pub header : Map Text
  pub pool : Text

module _ (canonical lower : Text → Text) where
  -- One round of the loop of `ruleMatches`.
  unfoldable pub header_matches : Map Text → Text → Text → Bool
  header_matches headers name want = elim (lookup (canonical name) headers) [
    | none ↦ false
    | some raw ↦
        let v = trim_space raw in
        if is_empty v
        then false
        else if eq_text (canonical name) (codes "User-Agent")
        then contains (lower v) (lower want)
        else eq_text v want
  ]

  unfoldable pub all_match : Map Text → Map Text → Bool
  all_match headers [] = true
  all_match headers ((name, want) ∷ h) = header_matches headers name want && all_match headers h

  unfoldable pub rule_matches : Map Text → Map Text → Bool
  rule_matches headers h = ltb 0 (length h) && all_match headers h

  -- The loop of `matchRoutingRule`.
  unfoldable pub first_match : Map Text → List RouteRule → Option RouteRule
  first_match headers [] = none
  first_match headers (r ∷ rules) =
      let rest = first_match headers rules in if rule_matches headers r.header then some r else rest

-- The loop of `effectiveRoutingRules`; `numbered n` is the name of the n-th rule without one.
unfoldable pub effective_rules : (ℕ → Text) → ℕ → List RoutingRule → List RouteRule
effective_rules numbered n [] = []
effective_rules numbered n (r ∷ rules) =
    record {
      name = if is_empty (trim_space r.name) then numbered (n + 1) else trim_space r.name;
      header = r.header;
      pool = trim_space r.pool;
    }
    ∷ effective_rules numbered (n + 1) rules

unfoldable pub effective_routing_rules : (ℕ → Text) → YamlConfig → List RouteRule
unfolding effective_rules
effective_routing_rules numbered c = elim c.routing [
  | none ↦ []
  | some rules ↦ effective_rules numbered 0 rules
]

unfoldable pub match_routing_rule :
    (Text → Text) → (Text → Text) → (ℕ → Text) → YamlConfig → Map Text → Option RouteRule
match_routing_rule canonical lower numbered c headers =
    first_match canonical lower headers (effective_routing_rules numbered c)

-- strings.Trim of slashes.
unfoldable pub trim_slashes : Text → Text
trim_slashes s = trim_right_if (λ c. c == 47) (trim_left_if (λ c. c == 47) s)

-- The loop of `pathMatches`, over a path without its outer slashes.
unfoldable pub path_in : Text → List Text → Bool
unfolding trim_slashes
path_in p [] = false
path_in p (item ∷ items) =
    let raw = trim_slashes item in
    let rest = path_in p items in
    if is_empty raw then rest else (eq_text p raw || has_prefix p (raw ++ 47 ∷ [])) || rest

unfoldable pub path_matches : Text → List Text → Bool
unfolding trim_slashes path_in
path_matches path list =
    if is_empty (trim_slashes path) then false else path_in (trim_slashes path) list

unfoldable pub should_record_proxy : List Text → Text → Bool
unfolding path_matches
should_record_proxy record_paths path =
    if eq_text path (47 ∷ []) then false else path_matches path record_paths
