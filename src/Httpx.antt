-- ===== src/Httpx.antt =====
-- internal/httpx/httpx.go: the request headers that are forwarded, the address of the client and the query
-- parameters. strings.ToLower, strings.EqualFold, strconv.Atoi (of numbers that are not below 0) and
-- net.SplitHostPort are parameters. A header is a map from canonical names to values.
pub mod Headers
pub mod Values
use llama_proxy.Prelude.{
  ℕ, ◌+◌, Bool, true, false, not, ◌&&◌, ◌||◌, Option, none, some, List, [], ◌∷◌, ◌++◌, Text, codes,
  Map, lookup, insert, member, is_empty, trim_space, eq_text, has_prefix, if◌then◌else◌, ◌==◌,
  or_else,
}

abbrev pub hop_by_hop : List Text
hop_by_hop =
    codes "connection"
    ∷ codes "proxy-connection"
    ∷ codes "keep-alive"
    ∷ codes "proxy-authenticate"
    ∷ codes "proxy-authorization"
    ∷ codes "te"
    ∷ codes "trailers"
    ∷ codes "transfer-encoding"
    ∷ codes "upgrade"
    ∷ []

-- http.Header's Add, under a canonical name.
abbrev pub add_value : Text → Map (List Text) → Text → Map (List Text)
add_value k h v = insert k (or_else [] (lookup k h) ++ v ∷ []) h

unfoldable pub add_values : Text → Map (List Text) → List Text → Map (List Text)
add_values k h [] = h
add_values k h (v ∷ vs) = add_values k (add_value k h v) vs

module _ (lower : Text → Text) where
  unfoldable pub is_hop_by_hop_header : Text → Bool
  is_hop_by_hop_header name = member (lower name) hop_by_hop

  -- The values of `QueryBool` and `OptionalQueryBool`: the flag, and whether it is given.
  unfoldable pub optional_query_bool : Text → Bool × Bool
  optional_query_bool raw =
      let v = trim_space (lower raw) in
      if member v (codes "1" ∷ codes "true" ∷ codes "yes" ∷ codes "on" ∷ [])
      then (true, true)
      else if member v (codes "0" ∷ codes "false" ∷ codes "no" ∷ codes "off" ∷ [])
      then (false, true)
      else (false, false)

  unfoldable pub query_bool : Text → Bool → Bool
  unfolding optional_query_bool
  query_bool raw fallback = let r = optional_query_bool raw in if r.1 then r.0 else fallback

  module _ (equal_fold : Text → Text → Bool) where
    unfoldable pub is_dropped : Text → Bool
    unfolding is_hop_by_hop_header
    is_dropped k =
        is_hop_by_hop_header k
        || equal_fold k (codes "Host")
        || equal_fold k (codes "Content-Length")

    unfoldable pub copy_request_headers : Map (List Text) → Map (List Text) → Map (List Text)
    unfolding is_dropped add_values
    copy_request_headers dst [] = dst
    copy_request_headers dst ((k, vals) ∷ src) =
        copy_request_headers (if is_dropped k then dst else add_values k dst vals) src

-- The text before the first comma.
unfoldable pub before_comma : Text → Text
before_comma [] = []
before_comma (c ∷ s) = if c == 44 then [] else c ∷ before_comma s

unfoldable pub client_ip : (Text → Option Text) → (Text → Text) → Text → Text
unfolding before_comma
client_ip split_host_port header remote_addr =
    let xff = trim_space (header (codes "X-Forwarded-For")) in
    let xr = trim_space (header (codes "X-Real-IP")) in
    if not (is_empty xff)
    then trim_space (before_comma xff)
    else if not (is_empty xr)
    then xr
    else or_else remote_addr (split_host_port remote_addr)

unfoldable pub query_int : (Text → Option ℕ) → Text → ℕ → ℕ
query_int atoi raw fallback =
    let v = trim_space raw in if is_empty v then fallback else or_else fallback (atoi v)
