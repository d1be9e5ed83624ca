-- ===== src/Routing/Rules.antt =====
-- Which rule a request is routed by (proxy_routing.go).
use llama_proxy.Prelude.{
  ◌≢◌, ◌+◌, codes, lookup, trim_space, ℕ, ◌<◌, ◌≡◌, true, false, Option, none, some, List, [], ◌∷◌,
  ◌++◌, Text, Map, In, length, is_empty,
}
use llama_proxy.Config.{RoutingRule}
use llama_proxy.Routing.{RouteRule}

-- The first text has the second one in it.
abbrev pub IsWithin : Text → Text → Type 0
IsWithin s p = (before : Text) × (after : Text) × (s ≡ before ++ (p ++ after))

module _ (canonical lower : Text → Text) (headers : Map Text) where
  -- The request meets a condition: it has the header, with more than white space as its value; the value of User-Agent
  -- has the wanted text in it, whatever their case, and that of another header is the wanted text.
  pub record IsMet (name want : Text) : Type 0 where
    pub raw : Text
    pub sent : lookup (canonical name) headers ≡ some raw
    pub filled : trim_space raw ≢ []
    pub agent : canonical name ≡ codes "User-Agent" → IsWithin (lower (trim_space raw)) (lower want)
    pub other : canonical name ≢ codes "User-Agent" → trim_space raw ≡ want

  -- The rule has a condition, and the request meets all of them.
  abbrev pub Applies : RoutingRule → Type 0
  Applies r =
      (0 < length r.header) × ((name want : Text) → In (name, want) r.header → IsMet name want)

  module _ (numbered : ℕ → Text) where
    -- The route of the configured rule that stands behind n others.
    pub record IsRoute (n : ℕ) (r : RoutingRule) (route : RouteRule) : Type 0 where
      pub header : route.header ≡ r.header
      pub pool : route.pool ≡ trim_space r.pool
      pub named : is_empty (trim_space r.name) ≡ false → route.name ≡ trim_space r.name
      pub unnamed : is_empty (trim_space r.name) ≡ true → route.name ≡ numbered (n + 1)

    -- The answer to the rules behind n others: the route of the first that applies.
    pub data IsFirst : ℕ → List RoutingRule → Option RouteRule → Type 0 where
      nothing : {n : ℕ} → IsFirst n [] none
      found :
          {n : ℕ} {r : RoutingRule} {rules : List RoutingRule} {route : RouteRule}
          → Applies r
          → IsRoute n r route
          → IsFirst n (r ∷ rules) (some route)
      passed :
          {n : ℕ} {r : RoutingRule} {rules : List RoutingRule} {answer : Option RouteRule}
          → ¬ Applies r
          → IsFirst (n + 1) rules answer
          → IsFirst n (r ∷ rules) answer
