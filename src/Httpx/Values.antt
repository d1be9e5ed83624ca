-- ===== src/Httpx/Values.antt =====
-- internal/httpx/httpx.go: HostOnly and ParseTime. time.ParseInLocation, which reads a text by a layout in local
-- time, is a parameter; times are in UTC.
use llama_proxy.Prelude.{
  ℕ, ◌+◌, ◌≡◌, refl, false, Option, none, some, List, [], ◌∷◌, ◌++◌, arith, Text, codes, is_empty,
  trim_space, if◌then◌else◌, ◌==◌,
}

-- The text before the first such byte.
unfoldable pub before : ℕ → Text → Option Text
before c [] = none
before c (d ∷ s) =
    let rest = before c s in
    if d == c then some [] else elim rest [ none ↦ none | some t ↦ some (d ∷ t) ]

-- The text before the last such byte.
unfoldable pub before_last : ℕ → Text → Option Text
before_last c [] = none
before_last c (d ∷ s) = elim (before_last c s) [
  | none ↦ if d == c then some [] else none
  | some t ↦ some (d ∷ t)
]

unfoldable pub count : ℕ → Text → ℕ
count c [] = 0
count c (d ∷ s) = (if d == c then 1 else 0) + count c s

-- The host of an address that is no literal in brackets: the port is cut off if there is one colon.
unfoldable pub without_port : Text → Text
unfolding before_last count
without_port host = elim (before_last 58 host) [
  | none ↦ host
  | some name ↦ if count 58 host == 1 then name else host
]

-- The literal in brackets that a host starts with.
unfoldable pub in_brackets : Text → Option Text
unfolding before
in_brackets [] = none
in_brackets (c ∷ s) = let name = before 93 s in if c == 91 then name else none

unfoldable pub host_only : Text → Text
unfolding in_brackets without_port
host_only hostport =
    let host = trim_space hostport in
    if is_empty host
    then []
    else elim (in_brackets host) [ none ↦ without_port host | some name ↦ name ]

abbrev pub layouts : List Text
layouts =
    codes "2006-01-02T15:04:05.999999999Z07:00"
    ∷ codes "2006-01-02T15:04:05Z07:00"
    ∷ codes "2006-01-02T15:04:05"
    ∷ codes "2006-01-02 15:04:05"
    ∷ codes "2006-01-02"
    ∷ []

module _ (parse_in_location : Text → Text → Option ℕ) where
  -- The first layout that reads the text.
  unfoldable pub first_layout : List Text → Text → Option ℕ
  first_layout [] v = none
  first_layout (l ∷ ls) v = elim (parse_in_location l v) [
    | none ↦ first_layout ls v
    | some t ↦ some t
  ]

  unfoldable pub parse_time : Text → Option ℕ
  unfolding first_layout
  parse_time raw = let v = trim_space raw in if is_empty v then none else first_layout layouts v

before_last-none : (c : ℕ) (s : Text) → count c s ≡ 0 → before_last c s ≡ none
unfolding before_last count
before_last-none c [] h = refl
before_last-none c (d ∷ s) h = ground (arith, h, before_last-none c s)

before_last-end : (c : ℕ) (s t : Text) → count c t ≡ 0 → before_last c (s ++ c ∷ t) ≡ some s
unfolding before_last
before_last-end c [] t h = ground (arith, before_last-none c t h)
before_last-end c (d ∷ s) t h = ground (arith, before_last-end c s t h)

count-append : (c : ℕ) (s t : Text) → count c (s ++ t) ≡ count c s + count c t
unfolding count
count-append c [] t = omega arith
count-append c (d ∷ s) t = ground (arith, count-append c s t)

count-here : (c : ℕ) (t : Text) → count c (c ∷ t) ≡ 1 + count c t
unfolding count
count-here c t = ground arith

without_port-port :
    (name port : Text)
    → count 58 name ≡ 0
    → count 58 port ≡ 0
    → without_port (name ++ 58 ∷ port) ≡ name
unfolding without_port
without_port-port name port h k = ground (
  arith,
  h,
  k,
  before_last-end 58 name port k,
  count-append 58 name (58 ∷ port),
  count-here 58 port,
)

is_empty-append : (name port : Text) → is_empty (name ++ 58 ∷ port) ≡ false
unfolding is_empty
is_empty-append [] port = refl
is_empty-append (c ∷ name) port = refl

in_brackets-none : (name rest : Text) → count 91 name ≡ 0 → in_brackets (name ++ 58 ∷ rest) ≡ none
unfolding in_brackets count
in_brackets-none [] rest h = refl
in_brackets-none (c ∷ name) rest h = ground (arith, h)

before-end : (c : ℕ) (s t : Text) → count c s ≡ 0 → before c (s ++ c ∷ t) ≡ some s
unfolding before count
before-end c [] t h = ground arith
before-end c (d ∷ s) t h = ground (arith, h, before-end c s t)

-- An address without white space around it that is a name, a colon and a port: the host is the name.
pub host_only-port :
    (name port : Text)
    → trim_space (name ++ 58 ∷ port) ≡ name ++ 58 ∷ port
    → count 58 name ≡ 0
    → count 91 name ≡ 0
    → count 58 port ≡ 0
    → host_only (name ++ 58 ∷ port) ≡ name
unfolding host_only
host_only-port name port trimmed h b k = rw trimmed ground (
  arith,
  in_brackets-none name port b,
  without_port-port name port h k,
  is_empty-append name port,
)

-- An address without white space around it that starts with a literal in brackets: the host is the
-- literal, whatever port follows.
pub host_only-literal :
    (name rest : Text)
    → trim_space (91 ∷ (name ++ 93 ∷ rest)) ≡ 91 ∷ (name ++ 93 ∷ rest)
    → count 93 name ≡ 0
    → host_only (91 ∷ (name ++ 93 ∷ rest)) ≡ name
unfolding host_only in_brackets is_empty
host_only-literal name rest trimmed h = rw trimmed ground (arith, before-end 93 name rest h)
