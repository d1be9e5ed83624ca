-- ===== src/Balancer/Sync.antt =====
-- What the pool's tables hold after an update, and that every operation keeps it so
-- (internal/balancer/balancer.go).
use llama_proxy.Prelude.{
  ℕ, ◌+◌, ◌-◌, ◌≡◌, refl, ◌∙◌, true, inl, inr, none, some, List, [], ◌∷◌, arith, Text, Map, In,
  lookup, insert, lookup-insert, lookup-retain, eq_text, eq_text_iff, member→In, Bool-cases,
  Option-cases, is_some, or_else,
}
use llama_proxy.Config.{BackendConfig, effective_tags}
use llama_proxy.Balancer.{
  Strategies, Balancer, Tables, no_tables, add_tags, add_backend, add_backends, map_values, update,
  new, blank, enter, leave, select_excluding, select_from_tag_excluding, has_tag, count_of,
  select_least_loaded, tag_eligible,
}

add_tags-keep :
    (name : Text) (w : ℕ) (tags : List Text) (m : Map (Map ℕ)) (tag : Text)
    → is_some (lookup tag m) ≡ true
    → is_some (lookup tag (add_tags name w tags m)) ≡ true
unfolding add_tags
add_tags-keep name w [] m tag h = h
add_tags-keep name w (t ∷ ts) m tag h =
    let inner = insert name w (or_else [] (lookup t m)) in
    add_tags-keep name w ts (insert t inner m) tag (ground (arith, lookup-insert t tag inner m))

add_tags-enters :
    (name : Text) (w : ℕ) (tags : List Text) (m : Map (Map ℕ)) (tag : Text)
    → In tag tags
    → is_some (lookup tag (add_tags name w tags m)) ≡ true
unfolding add_tags
add_tags-enters name w [] m tag here = absurd here
add_tags-enters name w (t ∷ ts) m tag (inl same) =
    let inner = insert name w (or_else [] (lookup t m)) in
    add_tags-keep name w ts (insert t inner m) tag
      (ground (arith, lookup-insert t tag inner m, eq_text_iff t tag))
add_tags-enters name w (t ∷ ts) m tag (inr later) =
    add_tags-enters name w ts (insert t (insert name w (or_else [] (lookup t m))) m) tag later

-- Every backend stands under its own name, and every tag of it has an entry.
record IsIndexed (t : Tables) : Type 0 where
  named : (name : Text) (b : BackendConfig) → lookup name t.backends ≡ some b → b.name ≡ name
  tagged :
      (name : Text) (b : BackendConfig) (tag : Text)
      → lookup name t.backends ≡ some b
      → has_tag tag b ≡ true
      → is_some (lookup tag t.tag_nodes) ≡ true

add_backend-IsIndexed : (t : Tables) (b : BackendConfig) → IsIndexed t → IsIndexed (add_backend t b)
unfolding add_backend
add_backend-IsIndexed t b v = record {
  named = λ name c h.
      ground
        (arith, lookup-insert b.name name b t.backends, eq_text_iff b.name name, v.named name c);
  tagged = λ name c tag h has. elim (Bool-cases (eq_text b.name name)) [
    | inl same ↦ add_tags-enters b.name b.weight (effective_tags b.tags) t.tag_nodes tag (
        member→In tag (effective_tags b.tags)
          (ground (arith, lookup-insert b.name name b t.backends)))
    | inr other ↦
        add_tags-keep b.name b.weight (effective_tags b.tags) t.tag_nodes tag
          (v.tagged name c tag (ground (arith, lookup-insert b.name name b t.backends)) has)
  ];
}

add_backends-IsIndexed :
    (t : Tables) (bs : List BackendConfig) → IsIndexed t → IsIndexed (add_backends t bs)
unfolding add_backends
add_backends-IsIndexed t [] v = v
add_backends-IsIndexed t (b ∷ bs) v =
    add_backends-IsIndexed (add_backend t b) bs (add_backend-IsIndexed t b v)

no_tables-IsIndexed : IsIndexed no_tables
unfolding lookup
no_tables-IsIndexed = record { named = λ name b h. cc; tagged = λ name b tag h has. cc }

lookup-map_values :
    {A B : Type 0} (f : A → B) (m : Map A) (k : Text)
    → is_some (lookup k (map_values f m)) ≡ is_some (lookup k m)
unfolding map_values lookup
lookup-map_values f [] k = refl
lookup-map_values f ((j, v) ∷ m) k = ground (arith, lookup-map_values f m k)

-- The state of a pool between two calls: a backend stands under its own name, each of its tags has
-- a pool, and only backends of the pool have a count.
pub record IsSynced {B : Type 0} (bb : Balancer B) : Type 0 where
  pub named : (name : Text) (b : BackendConfig) → lookup name bb.backends ≡ some b → b.name ≡ name
  pub tagged :
      (name : Text) (b : BackendConfig) (tag : Text)
      → lookup name bb.backends ≡ some b
      → has_tag tag b ≡ true
      → is_some (lookup tag bb.pools) ≡ true
  pub counted : (name : Text) → lookup name bb.backends ≡ none → lookup name bb.inflight ≡ none

module _ {B : Type 0} (S : Strategies B) where
  -- After `Update`, whatever the pool was: a backend stands under its own name, each tag of a backend
  -- has a pool, and a name without a backend has no in-flight count.
  pub update-IsSynced : (bb : Balancer B) (list : List BackendConfig) → IsSynced (update S bb list)
  unfolding update
  update-IsSynced bb list =
      let t = add_backends no_tables list in
      let v = add_backends-IsIndexed no_tables list no_tables-IsIndexed in
      record {
        named = v.named;
        tagged =
            λ name b tag h has. lookup-map_values _ t.tag_nodes tag ∙ v.tagged name b tag h has;
        counted = λ name h.
            ground (arith, lookup-retain (λ k. is_some (lookup k t.backends)) name bb.inflight);
      }

  pub new-IsSynced : (list : List BackendConfig) (strategy : Text) → IsSynced (new S list strategy)
  unfolding new
  new-IsSynced list strategy = update-IsSynced (blank S strategy) list

  pub select_excluding-IsSynced :
      (bb : Balancer B) (exclude : List Text)
      → IsSynced bb
      → IsSynced (select_excluding S bb exclude).1
  unfolding select_excluding
  select_excluding-IsSynced bb exclude v = record {
    named = v.named;
    tagged = v.tagged;
    counted = v.counted;
  }

  pub select_from_tag_excluding-IsSynced :
      (bb : Balancer B) (tag : Text) (exclude : List Text)
      → IsSynced bb
      → IsSynced (select_from_tag_excluding S bb tag exclude).1
  unfolding select_from_tag_excluding
  select_from_tag_excluding-IsSynced bb tag exclude v = record {
    named = λ name b h. v.named name b (ground arith);
    tagged = λ name b t h has. elim (Option-cases (lookup tag bb.pools)) [
      | inl nope ↦ ground (arith, v.tagged name b t)
      | inr (pool, found) ↦ ground (
        arith,
        v.tagged name b t,
        lookup-insert tag t
            (select_least_loaded S bb.backends bb.inflight pool (tag_eligible bb tag exclude)).1
            bb.pools,
        eq_text_iff tag t,
      )
    ];
    counted = λ name h. ground (arith, v.counted name);
  }

module _ {B : Type 0} where
  pub enter-IsSynced : (bb : Balancer B) (n : Text) → IsSynced bb → IsSynced (enter bb n)
  unfolding enter
  enter-IsSynced bb n v = record {
    named = λ name b h. v.named name b (ground arith);
    tagged = λ name b t h has. ground (arith, v.tagged name b t);
    counted = λ name h. ground (
      arith,
      v.counted name,
      lookup-insert n name (count_of bb.inflight n + 1) bb.inflight,
      eq_text_iff n name,
    );
  }

  pub leave-IsSynced : (bb : Balancer B) (n : Text) → IsSynced bb → IsSynced (leave bb n)
  unfolding leave
  leave-IsSynced bb n v = record {
    named = λ name b h. v.named name b (ground arith);
    tagged = λ name b t h has. ground (arith, v.tagged name b t);
    counted = λ name h. ground (
      arith,
      v.counted name,
      lookup-insert n name (count_of bb.inflight n - 1) bb.inflight,
      eq_text_iff n name,
    );
  }
