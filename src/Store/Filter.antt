-- ===== src/Store/Filter.antt =====
-- internal/store/store.go: `appendRequestFilterSQL` and `EffectiveWindow`. A zero time or a nil pointer is `none`; a time
-- counts nanoseconds, and the RFC 3339 text of one is the parameter `format`.
use mathlib.Core.List.{append-nil}
use llama_proxy.Prelude.{
  ℕ, ◌+◌, ◌-◌, ◌*◌, ◌≡◌, refl, sym, ap, ◌∙◌, Bool, true, not, Option, none, some, List, [], ◌∷◌,
  ◌++◌, arith, Text, codes, is_empty, is_some, All, length, length-append, if◌then◌else◌, ltb, ◌==◌,
  or_else, Bool-cases, inl, inr,
}

pub record RequestFilter : Type 0 where
  pub chat_completions_only : Bool
  pub path : Text
  pub model : Text
  pub method : Text
  pub backend : Text
  pub client_ip : Text
  pub user_agent : Text
  pub status_code : ℕ
  pub time_from : Option ℕ
  pub time_to : Option ℕ
  pub streaming : Option Bool
  pub errors_only : Bool
  pub with_tokens : Bool
  pub search : Text

-- An argument of a statement.
pub data Arg : Type 0 where
  text : Text → Arg
  number : ℕ → Arg
  time : ℕ → Arg
  flag : Bool → Arg

abbrev pub Query : Type 0
Query = Text × List Arg

-- One `if` of the function: its condition, the text and the arguments that it appends.
pub record Clause : Type 0 where
  pub given : Bool
  pub sql : Text
  pub args : List Arg

abbrev pub clause : Bool → Text → List Arg → Clause
clause given sql args = record { given = given; sql = sql; args = args }

abbrev pub add : Clause → Query → Query
add c q = if c.given then (q.0 ++ c.sql, q.1 ++ c.args) else q

unfoldable pub add_all : List Clause → Query → Query
add_all [] q = q
add_all (c ∷ cs) q = add_all cs (add c q)

-- A LIKE pattern.
abbrev pub pattern_of : Text → Arg
pattern_of t = text (codes "%" ++ (t ++ codes "%"))

abbrev pub search_sql : Text
search_sql =
    codes " AND ("
    ++ (10
          ∷ 9
          ∷ 9
          ∷ 9
          ∷ codes
              "id LIKE ? OR path LIKE ? OR query LIKE ? OR client_ip LIKE ? OR model LIKE ? OR error_text LIKE ?"
        ++ (10 ∷ 9 ∷ 9 ∷ codes ")"))

module _ (format : ℕ → Text) (is_postgres : Bool) where
  abbrev pub filter_time_arg : ℕ → Arg
  filter_time_arg t = if is_postgres then time t else text (format t)

  abbrev pub time_args : Option ℕ → List Arg
  time_args none = []
  time_args (some t) = filter_time_arg t ∷ []

  abbrev pub flag_args : Option Bool → List Arg
  flag_args none = []
  flag_args (some b) = flag b ∷ []

  unfoldable pub clauses : RequestFilter → List Clause
  clauses f =
      let p = pattern_of f.search in
      clause (f.chat_completions_only) (codes " AND method = ? AND path = ?")
        (text (codes "POST") ∷ text (codes "/v1/chat/completions") ∷ [])
      ∷ clause (not (is_empty f.path)) (codes " AND path LIKE ?") (pattern_of f.path ∷ [])
      ∷ clause (not (is_empty f.model)) (codes " AND model LIKE ?") (pattern_of f.model ∷ [])
      ∷ clause (not (is_empty f.method)) (codes " AND method = ?") (text f.method ∷ [])
      ∷ clause (not (is_empty f.backend)) (codes " AND backend_url = ?") (text f.backend ∷ [])
      ∷ clause (not (is_empty f.client_ip)) (codes " AND client_ip LIKE ?")
          (pattern_of f.client_ip ∷ [])
      ∷ clause (not (is_empty f.user_agent)) (codes " AND user_agent LIKE ?")
          (pattern_of f.user_agent ∷ [])
      ∷ clause (ltb 0 f.status_code) (codes " AND status_code = ?") (number f.status_code ∷ [])
      ∷ clause (is_some f.time_from) (codes " AND created_at >= ?") (time_args f.time_from)
      ∷ clause (is_some f.time_to) (codes " AND created_at <= ?") (time_args f.time_to)
      ∷ clause (is_some f.streaming) (codes " AND is_streaming = ?") (flag_args f.streaming)
      ∷ clause (f.errors_only) (codes " AND (status_code >= 400 OR error_text != '')") ([])
      ∷ clause (f.with_tokens) (codes " AND total_tokens > 0") ([])
      ∷ clause (not (is_empty f.search)) (search_sql) (p ∷ p ∷ p ∷ p ∷ p ∷ p ∷ [])
      ∷ []

  unfoldable pub append_request_filter_sql : RequestFilter → Query → Query
  unfolding add_all clauses
  append_request_filter_sql f q = add_all (clauses f) q

-- The window of a filter, at the time `now`; an instant before the year 1 is not reached.
unfoldable pub effective_window : ℕ → RequestFilter → ℕ → ℕ × ℕ
effective_window now f fallback_hours =
    (or_else (now - fallback_hours * 3600000000000) f.time_from, or_else now f.time_to)

-- The placeholders of a statement.
unfoldable pub marks : Text → ℕ
marks [] = 0
marks (c ∷ s) = (if c == 63 then 1 else 0) + marks s

marks-append : (s t : Text) → marks (s ++ t) ≡ marks s + marks t
unfolding marks
marks-append [] t = omega arith
marks-append (c ∷ s) t = ground (arith, marks-append s t)

-- Each placeholder has its argument.
abbrev pub IsBalanced : Query → Type 0
IsBalanced q = marks q.0 ≡ length q.1

-- The arguments of a clause are as many as its placeholders.
abbrev IsFit : Clause → Type 0
IsFit c = c.given ≡ true → marks c.sql ≡ length c.args

add_all-IsBalanced :
    (cs : List Clause) (q : Query) → All IsFit cs → IsBalanced q → IsBalanced (add_all cs q)
unfolding add_all
add_all-IsBalanced [] q fits h = h
add_all-IsBalanced (c ∷ cs) q (fit, fits) h = elim (Bool-cases c.given) [
  | inr absent ↦ rw absent (add_all-IsBalanced cs q fits h)
  | inl given ↦ rw given (
      add_all-IsBalanced cs (q.0 ++ c.sql, q.1 ++ c.args) fits
        (omega (arith, marks-append q.0 c.sql, length-append q.1 c.args, fit given, h)))
]

-- The text of a clause, if it is given.
abbrev shown : Clause → Text
shown c = if c.given then c.sql else []

shown_all : List Clause → List Text
shown_all [] = []
shown_all (c ∷ cs) = shown c ∷ shown_all cs

joined_to : Text → List Text → Text
joined_to s [] = s
joined_to s (t ∷ ts) = joined_to (s ++ t) ts

add_all-shown : (cs : List Clause) (q : Query) → (add_all cs q).0 ≡ joined_to q.0 (shown_all cs)
unfolding add_all shown_all joined_to
add_all-shown [] q = refl
add_all-shown (c ∷ cs) q = elim (Bool-cases c.given) [
  | inr absent ↦
      rw absent (add_all-shown cs q ∙ ap (λ s. joined_to s (shown_all cs)) (sym (append-nil q.0)))
  | inl given ↦ rw given (add_all-shown cs (q.0 ++ c.sql, q.1 ++ c.args))
]

-- Two filters that set the same fields; the flags that add no argument are equal.
pub record IsAlike (f g : RequestFilter) : Type 0 where
  pub chat : f.chat_completions_only ≡ g.chat_completions_only
  pub path : is_empty f.path ≡ is_empty g.path
  pub model : is_empty f.model ≡ is_empty g.model
  pub method : is_empty f.method ≡ is_empty g.method
  pub backend : is_empty f.backend ≡ is_empty g.backend
  pub client : is_empty f.client_ip ≡ is_empty g.client_ip
  pub agent : is_empty f.user_agent ≡ is_empty g.user_agent
  pub status : ltb 0 f.status_code ≡ ltb 0 g.status_code
  pub from : is_some f.time_from ≡ is_some g.time_from
  pub to : is_some f.time_to ≡ is_some g.time_to
  pub streaming : is_some f.streaming ≡ is_some g.streaming
  pub errors : f.errors_only ≡ g.errors_only
  pub tokens : f.with_tokens ≡ g.with_tokens
  pub search : is_empty f.search ≡ is_empty g.search

module _ (format : ℕ → Text) (is_postgres : Bool) where
  one_time : (o : Option ℕ) → is_some o ≡ true → 1 ≡ length (time_args format is_postgres o)
  one_time none h = cc
  one_time (some t) h = refl

  one_flag : (o : Option Bool) → is_some o ≡ true → 1 ≡ length (flag_args format is_postgres o)
  one_flag none h = cc
  one_flag (some b) h = refl

  clauses-shown :
      (f g : RequestFilter)
      → IsAlike f g
      → shown_all (clauses format is_postgres f) ≡ shown_all (clauses format is_postgres g)
  unfolding clauses shown_all
  clauses-shown f g same = cc (
    same.chat, same.path, same.model, same.method, same.backend, same.client, same.agent,
    same.status, same.from, same.to, same.streaming, same.errors, same.tokens, same.search,
  )

  -- The filters give each placeholder of a statement its argument, and its text depends only on which
  -- fields are set: no text of a client gets into it.
  pub append_request_filter_sql-IsBalanced :
      (f g : RequestFilter) (q : Query)
      → IsAlike f g
      → IsBalanced q
      → IsBalanced (append_request_filter_sql format is_postgres f q)
        × ((append_request_filter_sql format is_postgres f q).0
            ≡ (append_request_filter_sql format is_postgres g q).0)
  unfolding append_request_filter_sql clauses marks
  append_request_filter_sql-IsBalanced f g q same h = (
    add_all-IsBalanced (clauses format is_postgres f) q
        (
          (λ e. refl),
          (
            (λ e. refl),
            (
              (λ e. refl),
              (
                (λ e. refl),
                (
                  (λ e. refl),
                  (
                    (λ e. refl),
                    (
                      (λ e. refl),
                      (
                        (λ e. refl),
                        (
                          one_time f.time_from,
                          (
                            one_time f.time_to,
                            (one_flag f.streaming, ((λ e. refl), ((λ e. refl), ((λ e. refl), tt)))),
                          ),
                        ),
                      ),
                    ),
                  ),
                ),
              ),
            ),
          ),
        )
        h,
    add_all-shown (clauses format is_postgres f) q
        ∙ ap (joined_to q.0) (clauses-shown f g same)
        ∙ sym (add_all-shown (clauses format is_postgres g) q),
  )
