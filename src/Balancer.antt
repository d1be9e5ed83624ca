-- ===== src/Balancer.antt =====
-- internal/balancer/balancer.go: the backend pool with its weights, tag pools and in-flight counts.
-- github.com/fufuok/balancer is the parameter `Strategies`: its constructors, and `Select` as a
-- function from a strategy's state to a node name and the next state. Nothing is assumed of it.
-- Counts and products do not overflow; logging is left out.
pub mod LeastLoaded
pub mod Choice
pub mod Sync
pub mod Selection
pub mod Counts
use llama_proxy.Prelude.{
  ℕ, zero, suc, ◌+◌, ◌-◌, ◌*◌, Bool, true, false, not, ◌&&◌, ◌||◌, Option, none, some, List, [],
  ◌∷◌, Text, codes, Map, lookup, insert, retain, keys, keep_if, length, member, eq_text, is_empty,
  is_some, trim_space, sort_texts, if◌then◌else◌, ltb, ◌==◌, or_else,
}
use llama_proxy.Config.{BackendConfig, effective_tags}

pub record Strategies (B : Type 0) : Type 0 where
  pub smooth_weighted : Map ℕ → B
  pub weighted_rand : Map ℕ → B
  pub weighted : Map ℕ → B
  pub round_robin : List Text → B
  pub random : List Text → B
  pub select : B → Text × B

-- The Go struct, without its mutex and its logger.
pub record Balancer (B : Type 0) : Type 0 where
  pub bal : B
  pub backends : Map BackendConfig
  pub models : Map Text
  pub strategy : Text
  pub pools : Map B
  pub inflight : Map ℕ

abbrev pub has_tag : Text → BackendConfig → Bool
has_tag tag b = member tag (effective_tags b.tags)

-- A missing key of a Go map of numbers reads as 0.
abbrev pub count_of : Map ℕ → Text → ℕ
count_of m name = or_else 0 (lookup name m)

abbrev pub weight_of : Map BackendConfig → Text → ℕ
weight_of m name = elim (lookup name m) [ none ↦ 0 | some b ↦ b.weight ]

module _ {B : Type 0} (S : Strategies B) where
  unfoldable pub new_strategy_balancer : Text → Map ℕ → B
  new_strategy_balancer strategy nodes =
      if eq_text strategy (codes "swrr")
      then S.smooth_weighted nodes
      else if eq_text strategy (codes "wr")
      then S.weighted_rand nodes
      else if eq_text strategy (codes "rr")
      then S.round_robin (sort_texts (keys nodes))
      else if eq_text strategy (codes "random")
      then S.random (sort_texts (keys nodes))
      else S.weighted nodes

-- One round of the loop over the configured backends: the maps `bb.backends`, `bb.models`,
-- `wNodes` and `tagNodes`.
pub record Tables : Type 0 where
  pub backends : Map BackendConfig
  pub models : Map Text
  pub nodes : Map ℕ
  pub tag_nodes : Map (Map ℕ)

unfoldable pub add_tags : Text → ℕ → List Text → Map (Map ℕ) → Map (Map ℕ)
add_tags name weight [] m = m
add_tags name weight (tag ∷ tags) m =
    add_tags name weight tags (insert tag (insert name weight (or_else [] (lookup tag m))) m)

unfoldable pub add_backend : Tables → BackendConfig → Tables
add_backend t b = record {
  backends = insert b.name b t.backends;
  models =
      if is_empty (trim_space b.model)
      then t.models
      else insert (trim_space b.model) b.name t.models;
  nodes = insert b.name b.weight t.nodes;
  tag_nodes = add_tags b.name b.weight (effective_tags b.tags) t.tag_nodes;
}

unfoldable pub add_backends : Tables → List BackendConfig → Tables
add_backends t [] = t
add_backends t (b ∷ bs) = add_backends (add_backend t b) bs

abbrev pub no_tables : Tables
no_tables = record { backends = []; models = []; nodes = []; tag_nodes = [] }

unfoldable pub map_values : {A B : Type 0} → (A → B) → Map A → Map B
map_values f [] = []
map_values f ((k, v) ∷ m) = (k, f v) ∷ map_values f m

module _ {B : Type 0} (S : Strategies B) where
  -- `updateBalancer`.
  unfoldable pub update : Balancer B → List BackendConfig → Balancer B
  update bb list =
      let t = add_backends no_tables list in
      record {
        bal = new_strategy_balancer S bb.strategy t.nodes;
        backends = t.backends;
        models = t.models;
        strategy = bb.strategy;
        pools = map_values (new_strategy_balancer S bb.strategy) t.tag_nodes;
        inflight = retain (λ name _. is_some (lookup name t.backends)) bb.inflight;
      }

  -- The struct before its first update; its strategy state is replaced at once.
  abbrev pub blank : Text → Balancer B
  blank strategy = record {
    bal = new_strategy_balancer S strategy [];
    backends = [];
    models = [];
    strategy = strategy;
    pools = [];
    inflight = [];
  }

  unfoldable pub new : List BackendConfig → Text → Balancer B
  unfolding update
  new list strategy = update (blank strategy) list

module _ {B : Type 0} where
  unfoldable pub enter : Balancer B → Text → Balancer B
  enter bb name =
      if is_empty name
      then bb
      else if is_some (lookup name bb.backends)
      then record bb { inflight = insert name (count_of bb.inflight name + 1) bb.inflight }
      else bb

  unfoldable pub leave : Balancer B → Text → Balancer B
  leave bb name =
      if is_empty name
      then bb
      else if is_some (lookup name bb.backends) && ltb 0 (count_of bb.inflight name)
      then record bb { inflight = insert name (count_of bb.inflight name - 1) bb.inflight }
      else bb

  unfoldable pub inflight_count : Balancer B → Text → ℕ
  inflight_count bb name = count_of bb.inflight name

  -- The sets of names that may be chosen.
  unfoldable pub all_eligible : Balancer B → Text → Bool
  all_eligible bb name = is_some (lookup name bb.backends)

  unfoldable pub tag_eligible : Balancer B → Text → List Text → Text → Bool
  tag_eligible bb tag exclude name = elim (lookup name bb.backends) [
    | none ↦ false
    | some b ↦ has_tag tag b && not (member name exclude)
  ]

  unfoldable pub exclude_eligible : Balancer B → List Text → Text → Bool
  exclude_eligible bb exclude name = is_some (lookup name bb.backends) && not (member name exclude)

-- The best ratio of load to weight, as a numerator and a denominator; `none` is `bestNum < 0`.
abbrev pub Ratio : Type 0
Ratio = Option (ℕ × ℕ)

module _ (weight load : Text → ℕ) (elig : Text → Bool) where
  -- The first loop, over the eligible nodes of positive weight.
  unfoldable pub best_ratio : Ratio → List Text → Ratio
  best_ratio best [] = best
  best_ratio best (name ∷ names) =
      let keep = best_ratio best names in
      let take = best_ratio (some (load name, weight name)) names in
      if not (elig name) || weight name == 0 then keep else elim best [
        | none ↦ take
        | some (num, den) ↦ if ltb (load name * den) (num * weight name) then take else keep
      ]

  -- The second loop, over all eligible nodes.
  unfoldable pub best_count : Ratio → List Text → Ratio
  best_count best [] = best
  best_count best (name ∷ names) =
      let keep = best_count best names in
      let take = best_count (some (load name, 1)) names in
      if not (elig name)
      then keep
      else elim best [ none ↦ take | some (num, den) ↦ if ltb (load name) num then take else keep ]

  unfoldable pub best_load : List Text → Ratio
  best_load names = elim (best_ratio none names) [ some r ↦ some r | none ↦ best_count none names ]

  unfoldable pub is_tied : ℕ × ℕ → Text → Bool
  is_tied (num, den) name =
      elig name
      && (if ltb 0 (weight name)
          then load name * den == num * weight name
          else (den == 1 && load name == num))

-- The sum of the weights, and at least the number of backends.
unfoldable pub weight_sum : Map BackendConfig → ℕ
weight_sum [] = 0
weight_sum ((name, b) ∷ m) = b.weight + weight_sum m

unfoldable pub max_tries : Map BackendConfig → ℕ
unfolding weight_sum
max_tries m = if ltb (weight_sum m) (length m) then length m else weight_sum m

module _ {B : Type 0} (S : Strategies B) where
  -- The loop that lets the strategy choose among the tied nodes.
  unfoldable pub rotate : ℕ → Map BackendConfig → List Text → B → Option BackendConfig × B
  rotate zero backends tied b = (none, b)
  rotate (suc n) backends tied b =
      let name = (S.select b).0 in
      let next = (S.select b).1 in
      let rest = rotate n backends tied next in
      if is_empty name
      then (none, next)
      else if member name tied
      then elim (lookup name backends) [ some c ↦ (some c, next) | none ↦ rest ]
      else rest

  -- The fallback: the first tied node in name order.
  unfoldable pub first_tied : Map BackendConfig → List Text → Option BackendConfig
  first_tied backends tied = elim (sort_texts tied) [
    | [] ↦ none
    | name ∷ names ↦ lookup name backends
  ]

  unfoldable pub select_tied : Map BackendConfig → List Text → B → Option BackendConfig × B
  unfolding rotate first_tied max_tries
  select_tied backends tied b =
      let r = rotate (max_tries backends) backends tied b in
      elim r.0 [ some c ↦ (some c, r.1) | none ↦ (first_tied backends tied, r.1) ]

  unfoldable pub select_least_loaded :
      Map BackendConfig → Map ℕ → B → (Text → Bool) → Option BackendConfig × B
  unfolding best_load is_tied keep_if
  select_least_loaded backends inflight b elig =
      let names = keys backends in
      let weight = weight_of backends in
      let load = count_of inflight in
      elim (best_load weight load elig names) [
        | none ↦ (none, b)
        | some best ↦ select_tied backends (keep_if (is_tied weight load elig best) names) b
      ]

  -- The pool's strategy is a pointer: its new state is stored back.
  unfoldable pub select_excluding : Balancer B → List Text → Option BackendConfig × Balancer B
  unfolding exclude_eligible
  select_excluding bb exclude =
      let r = select_least_loaded bb.backends bb.inflight bb.bal (exclude_eligible bb exclude) in
      (r.0, record bb { bal = r.1 })

  unfoldable pub select : Balancer B → Option BackendConfig × Balancer B
  unfolding all_eligible
  select bb =
      let r = select_least_loaded bb.backends bb.inflight bb.bal (all_eligible bb) in
      (r.0, record bb { bal = r.1 })

  unfoldable pub select_from_tag_excluding :
      Balancer B → Text → List Text → Option BackendConfig × Balancer B
  unfolding tag_eligible
  select_from_tag_excluding bb tag exclude = elim (lookup tag bb.pools) [
    | none ↦ (none, bb)
    | some pool ↦
        let r = select_least_loaded bb.backends bb.inflight pool (tag_eligible bb tag exclude) in
        (r.0, record bb { pools = insert tag r.1 bb.pools })
  ]

  unfoldable pub select_from_tag : Balancer B → Text → Option BackendConfig × Balancer B
  unfolding select_from_tag_excluding
  select_from_tag bb tag = select_from_tag_excluding bb tag []

module _ {B : Type 0} where
  unfoldable pub get_backend_by_name : Balancer B → Text → Option BackendConfig
  get_backend_by_name bb name = lookup name bb.backends

  unfoldable pub get_backend_by_model : Balancer B → Text → Option BackendConfig
  get_backend_by_model bb model_id = elim (lookup (trim_space model_id) bb.models) [
    | none ↦ none
    | some name ↦ lookup name bb.backends
  ]

  unfoldable pub names : Balancer B → List Text
  names bb = sort_texts (keys bb.backends)

  unfoldable pub len : Balancer B → ℕ
  len bb = length bb.backends

  unfoldable pub get_strategy : Balancer B → Text
  get_strategy bb = trim_space bb.strategy
