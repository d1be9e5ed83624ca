-- ===== src/Database/Dsn.antt =====
-- internal/db/database.go: the connection strings (DSN) of PostgreSQL. A DSN is valid UTF-8, as its code
-- points; net/url's Parse is the parameter `parse_url`. Go ranges over the parameters in any order, the
-- model in the order of the list.
pub mod Fields
pub mod RoundTrip
pub mod Admin
use llama_proxy.Prelude.{
  ℕ, Bool, true, false, not, ◌&&◌, ◌||◌, Option, none, some, List, [], ◌∷◌, ◌++◌, Text, codes, Map,
  lookup, insert, delete, is_empty, trim_space, trim_left_if, has_prefix, contains, if◌then◌else◌,
  ◌==◌, ◌⊎◌, inl, inr, or_else,
}

abbrev pub single : ℕ
single = 39

abbrev pub blank : ℕ
blank = 32

abbrev pub equals : ℕ
equals = 61

-- The loop of `splitDSNFields`, with its `cur` and `inQuote`.
unfoldable pub split_fields : Text → Bool → Text → List Text
split_fields cur quoted [] = if is_empty cur then [] else cur ∷ []
split_fields cur quoted (c ∷ s) =
    let more = split_fields (cur ++ c ∷ []) (if c == single then not quoted else quoted) s in
    let next = split_fields [] quoted s in
    if c == single
    then more
    else if (c == blank) && not quoted
    then (if is_empty cur then next else cur ∷ next)
    else more

unfoldable pub split_dsn_fields : Text → List Text
unfolding split_fields
split_dsn_fields dsn = split_fields [] false dsn

-- A field at its first `=`.
unfoldable pub cut : Text → Option (Text × Text)
cut [] = none
cut (c ∷ s) =
    let rest = cut s in
    if c == equals
    then some ([], s)
    else elim rest [ none ↦ none | some (key, val) ↦ some (c ∷ key, val) ]

-- strings.ReplaceAll of two quotes by one, and of one by two.
unfoldable pub unescape : Text → Text
unescape [] = []
unescape (c ∷ []) = c ∷ []
unescape (c ∷ d ∷ s) =
    let pair = unescape s in
    let next = unescape (d ∷ s) in
    if (c == single) && (d == single) then single ∷ pair else c ∷ next

unfoldable pub escape : Text → Text
escape [] = []
escape (c ∷ s) = let rest = escape s in if c == single then single ∷ single ∷ rest else c ∷ rest

-- The text before its last character, and whether that is a quote.
unfoldable pub front : Text → Text
front [] = []
front (c ∷ []) = []
front (c ∷ d ∷ s) = c ∷ front (d ∷ s)

unfoldable pub ends_quoted : Text → Bool
ends_quoted [] = false
ends_quoted (c ∷ []) = c == single
ends_quoted (c ∷ d ∷ s) = ends_quoted (d ∷ s)

unfoldable pub unquote : Text → Text
unfolding front ends_quoted unescape
unquote [] = []
unquote (c ∷ s) =
    if (c == single) && (not (is_empty s) && ends_quoted s) then unescape (front s) else c ∷ s

-- The loop of `parsePostgresKV`; on the left is the field without `=`.
unfoldable pub parse_fields : Map Text → List Text → Text ⊎ Map Text
unfolding cut unquote
parse_fields kv [] = inr kv
parse_fields kv (field ∷ fields) = elim (cut field) [
  | none ↦ inl field
  | some (key, val) ↦ parse_fields (insert (trim_space key) (unquote (trim_space val)) kv) fields
]

unfoldable pub parse_kv : Text → Text ⊎ Map Text
parse_kv dsn = parse_fields [] (split_dsn_fields dsn)

-- strings.ContainsAny(v, " '\\").
unfoldable pub is_special : Text → Bool
is_special [] = false
is_special (c ∷ s) = (c == blank) || (c == single) || (c == 92) || is_special s

unfoldable pub print_value : Text → Text
unfolding is_special escape
print_value v = if is_special v then single ∷ escape v ++ single ∷ [] else v

abbrev pub print_field : Text → Text → Text
print_field key v = key ++ equals ∷ print_value v

-- The last loop of `pgAdminDSN` and of `postgresURLToKV`, with strings.Join.
unfoldable pub print_kv : Map Text → Text
unfolding print_value
print_kv [] = []
print_kv ((key, v) ∷ []) = print_field key v
print_kv ((key, v) ∷ p ∷ kv) = print_field key v ++ blank ∷ print_kv (p ∷ kv)

-- A parsed URL: `user` is the name, with the password if there is one.
pub record Url : Type 0 where
  pub host : Text
  pub hostname : Text
  pub port : Text
  pub user : Option (Text × Option Text)
  pub path : Text
  pub query : Map (List Text)

unfoldable pub enter_query : Map Text → Map (List Text) → Map Text
enter_query kv [] = kv
enter_query kv ((key, []) ∷ query) = enter_query kv query
enter_query kv ((key, v ∷ vs) ∷ query) = enter_query (insert key v kv) query

unfoldable pub url_to_kv : Url → Map Text
unfolding enter_query
url_to_kv u =
    let hosted : Map Text =
      if is_empty u.host
      then []
      else if is_empty u.port
      then insert (codes "host") u.host []
      else insert (codes "port") u.port (insert (codes "host") u.hostname []) in
    let named : Map Text = elim u.user [
      | none ↦ hosted
      | some (name, password) ↦ elim password [
        | none ↦ insert (codes "user") name hosted
        | some p ↦ insert (codes "password") p (insert (codes "user") name hosted)
      ]
    ] in
    let located : Map Text = elim u.path [
      | [] ↦ named
      | c ∷ rest ↦
          if (c == 47) && is_empty rest
          then named
          else insert (codes "dbname") (if c == 47 then rest else c ∷ rest) named
    ] in
    enter_query located u.query

module _ (parse_url : Text → Option Url) where
  unfoldable pub parse_postgres_kv : Text → Text ⊎ Map Text
  unfolding url_to_kv print_kv
  parse_postgres_kv dsn =
      if contains dsn (codes "://")
      then elim (parse_url dsn) [ none ↦ inl dsn | some u ↦ parse_kv (print_kv (url_to_kv u)) ]
      else parse_kv dsn

  unfoldable pub pg_database_name : Text → Text ⊎ Text
  unfolding parse_postgres_kv
  pg_database_name dsn = elim (parse_postgres_kv dsn) [
    | inl x ↦ inl x
    | inr kv ↦
        let name = or_else [] (lookup (codes "dbname") kv) in
        inr (if is_empty name then or_else [] (lookup (codes "database") kv) else name)
  ]

  abbrev pub admin_kv : Map Text → Map Text
  admin_kv kv =
      insert (codes "dbname") (codes "postgres")
        (delete (codes "database") (delete (codes "dbname") kv))

  unfoldable pub pg_admin_dsn : Text → Text ⊎ Text
  unfolding parse_postgres_kv
  pg_admin_dsn dsn = elim (parse_postgres_kv dsn) [
    | inl x ↦ inl x
    | inr kv ↦ inr (print_kv (admin_kv kv))
  ]
