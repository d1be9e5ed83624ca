-- ===== src/Examples/Requests.antt =====
-- A routed request, a recorded path and a captured response.
use llama_proxy.Prelude.{
  ◌≡◌, ◌↔◌, true, false, some, [], ◌∷◌, Text, codes, Map, eq_text, is_empty, ℕ,
}
use llama_proxy.Config.{YamlConfig, RoutingRule}
use llama_proxy.Routing.{should_record_proxy, trim_slashes}
use llama_proxy.Routing.Matching.{IsCovered, should_record_proxy-exact}
use llama_proxy.Examples.{yaml}

abbrev same_text : Text → Text
same_text t = t

abbrev number : ℕ → Text
number n = n ∷ []

abbrev agent_rule : RoutingRule
agent_rule = record {
  name = [];
  header = (codes "X-Env", codes "dev") ∷ (codes "User-Agent", codes "claw") ∷ [];
  pool = codes "g";
}

abbrev routed : YamlConfig
routed = record yaml { routing = some (agent_rule ∷ []) }

abbrev headers : Map Text
headers = (codes "X-Env", codes " dev") ∷ (codes "User-Agent", codes "goclaw/2") ∷ []

should_record_proxy-exact_example :
    (should_record_proxy (codes "/v1/" ∷ []) (codes "/v1/chat") ≡ true) ↔ (
      (eq_text (codes "/v1/chat") (47 ∷ []) ≡ false)
      × (is_empty (trim_slashes (codes "/v1/chat")) ≡ false)
      × IsCovered (codes "/v1/chat") (codes "/v1/" ∷ []))
should_record_proxy-exact_example = should_record_proxy-exact (codes "/v1/" ∷ []) (codes "/v1/chat")
