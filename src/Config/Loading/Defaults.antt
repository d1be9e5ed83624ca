-- ===== src/Config/Loading/Defaults.antt =====
-- What `setConfigDefaults` fills in, and the runtime settings that `ToLegacy` makes of the result
-- (internal/config/config.go).
use llama_proxy.Prelude.{
  ℤ, pos, negsuc, ℕ, ◌*◌, ◌≤◌, ◌<◌, ◌≡◌, ◌↔◌, refl, ap, false, Option, none, some, List, [], ◌∷◌,
  arith, Text, codes, Map, In, is_empty, inl, inr,
}
use llama_proxy.Config.{
  ProcessConfig, BackendConfig, SchedulingConfig, ServerConfig, DatabaseConfig, ProxyConfig,
  YamlConfig,
}
use llama_proxy.Config.Loading.{
  text_or, second, server_defaults, map_some, database_defaults, proxy_defaults, backend_defaults,
  model_defaults, duration_or, second, scheduling_defaults, set_config_defaults, LegacyConfig,
  seconds, to_legacy,
}

text_or-text_or : (d t : Text) → is_empty d ≡ false → text_or d (text_or d t) ≡ text_or d t
text_or-text_or d t full = ground arith

server_defaults-idempotent :
    (v : ServerConfig) → server_defaults (server_defaults v) ≡ server_defaults v
unfolding server_defaults is_empty
server_defaults-idempotent v = ground arith

strategy-idempotent :
    (t : Text) → text_or (codes "wrr") (text_or (codes "wrr") t) ≡ text_or (codes "wrr") t
unfolding is_empty
strategy-idempotent t = ground arith

database_defaults-idempotent :
    (d : DatabaseConfig) → database_defaults (database_defaults d) ≡ database_defaults d
unfolding database_defaults is_empty
database_defaults-idempotent d = ground arith

proxy_defaults-idempotent : (p : ProxyConfig) → proxy_defaults (proxy_defaults p) ≡ proxy_defaults p
unfolding proxy_defaults
proxy_defaults-idempotent p = ground arith

backend_defaults-idempotent :
    (bs : List BackendConfig) → backend_defaults (backend_defaults bs) ≡ backend_defaults bs
unfolding backend_defaults
backend_defaults-idempotent [] = refl
backend_defaults-idempotent (b ∷ bs) = ground (arith, backend_defaults-idempotent bs)

model_defaults-idempotent :
    (m : Map ProcessConfig) → model_defaults (model_defaults m) ≡ model_defaults m
unfolding model_defaults
model_defaults-idempotent [] = refl
model_defaults-idempotent ((id, e) ∷ m) = ground (arith, model_defaults-idempotent m)

duration_or-idempotent : (d : ℕ) (t : ℤ) → duration_or d (duration_or d t) ≡ duration_or d t
unfolding duration_or
duration_or-idempotent d (pos n) = ground arith
duration_or-idempotent d (negsuc n) = refl

scheduling_defaults-idempotent :
    (sc : SchedulingConfig) → scheduling_defaults (scheduling_defaults sc) ≡ scheduling_defaults sc
unfolding scheduling_defaults
scheduling_defaults-idempotent sc = ground (
  arith,
  model_defaults-idempotent sc.models,
  duration_or-idempotent (1800 * second) sc.lease.coding_idle_timeout,
  duration_or-idempotent (10 * second) sc.switch.drain_timeout,
  duration_or-idempotent (10 * second) sc.switch.kill_timeout,
  duration_or-idempotent (120 * second) sc.switch.startup_timeout,
)

option-idempotent :
    (o : Option SchedulingConfig)
    → map_some scheduling_defaults (map_some scheduling_defaults o) ≡ map_some scheduling_defaults o
option-idempotent none = refl
option-idempotent (some sc) = ap some (scheduling_defaults-idempotent sc)

-- Setting the defaults a second time changes nothing.
pub set_config_defaults-idempotent :
    (c : YamlConfig) → set_config_defaults (set_config_defaults c) ≡ set_config_defaults c
unfolding set_config_defaults
set_config_defaults-idempotent c =
    simp
      (
        server_defaults-idempotent, database_defaults-idempotent, backend_defaults-idempotent,
        strategy-idempotent, proxy_defaults-idempotent, option-idempotent,
      )
      refl

weighted : (bs : List BackendConfig) (b : BackendConfig) → In b (backend_defaults bs) → 0 < b.weight
unfolding backend_defaults
weighted [] b h = absurd h
weighted (d ∷ bs) b (inl e) = ground (arith, ap (λ (x : BackendConfig). x.weight) e)
weighted (d ∷ bs) b (inr h) = weighted bs b h

seconds-exact :
    (n : ℕ)
    → 0 < n
    → ((seconds n ≡ n * second) × (0 < seconds n) × (seconds n < 9223372036854775808))
      ↔ (n ≤ 9223372036)
seconds-exact n some_time = (λ (e, p, u). omega arith, λ h. (omega arith, omega arith, omega arith))

-- The settings that `ToLegacy` makes of a configuration with its defaults: it meets no nil pointer, and
-- the timeout of a request is the configured number of seconds, as a positive Duration, exactly up to
-- 9223372036 seconds.
pub to_legacy-exact :
    (c : YamlConfig)
    → (l : LegacyConfig) × (to_legacy (set_config_defaults c) ≡ some l)
      × (((l.request_timeout ≡ (set_config_defaults c).proxy.request_timeout * second)
            × (0 < l.request_timeout)
            × (l.request_timeout < 9223372036854775808))
          ↔ ((set_config_defaults c).proxy.request_timeout ≤ 9223372036))
unfolding to_legacy set_config_defaults proxy_defaults
to_legacy-exact c =
    (_, refl, seconds-exact (set_config_defaults c).proxy.request_timeout (ground arith))
