-- ===== src/Scheduler/Tree/Stat.antt =====
-- internal/scheduler/procresolve.go: the parent and the group of a process, from the text of /proc/<pid>/stat
-- (`none` where the file cannot be read). strconv.Atoi is the parameter `atoi`, for process numbers.
use mathlib.Core.List.{append-nil, append_assoc}
use llama_proxy.Prelude.{
  ℕ, zero, suc, ◌≡◌, refl, sym, ap, ◌∙◌, Bool, true, false, Option, none, some, List, [], ◌∷◌, ◌++◌,
  arith, Text, is_empty, is_space, length, length-append, if◌then◌else◌, leb, ◌==◌, Option-cases,
  inl, inr, or_else,
}

abbrev pub close : ℕ
close = 41

-- The text after its last `)`.
unfoldable pub after_last : Text → Option Text
after_last [] = none
after_last (c ∷ s) = elim (after_last s) [
  | some rest ↦ some rest
  | none ↦ if c == close then some s else none
]

-- strings.Fields, with the field that is read.
unfoldable pub fields_loop : Text → Text → List Text
fields_loop cur [] = if is_empty cur then [] else cur ∷ []
fields_loop cur (c ∷ s) =
    let next = fields_loop [] s in
    let more = fields_loop (cur ++ c ∷ []) s in
    if is_space c then (if is_empty cur then next else cur ∷ next) else more

unfoldable pub fields : Text → List Text
unfolding fields_loop
fields s = fields_loop [] s

unfoldable pub nth : ℕ → List Text → Option Text
nth n [] = none
nth zero (x ∷ xs) = some x
nth (suc n) (x ∷ xs) = nth n xs

module _ (atoi : Text → Option ℕ) where
  unfoldable pub number_at : ℕ → Text → Option ℕ
  unfolding fields nth
  number_at n s = elim (nth n (fields s)) [ none ↦ none | some t ↦ atoi t ]

  unfoldable pub stat_ppid : Option Text → ℕ
  unfolding after_last number_at
  stat_ppid none = 0
  stat_ppid (some s) = elim (after_last s) [ none ↦ 0 | some rest ↦ or_else 0 (number_at 1 rest) ]

  -- The text after `)` has two characters at least.
  unfoldable pub proc_group_id : Option Text → Option ℕ
  unfolding after_last number_at
  proc_group_id none = none
  proc_group_id (some s) = elim (after_last s) [
    | none ↦ none
    | some rest ↦ if leb (length rest) 1 then none else number_at 2 rest
  ]

after_last-none : (c : ℕ) (s : Text) → after_last (c ∷ s) ≡ none → after_last s ≡ none
unfolding after_last
after_last-none c s h = elim (Option-cases (after_last s)) [
  | inl z ↦ z
  | inr (r, found) ↦ ground (arith, h, found)
]

-- Whatever stands before it, the text after the last `)` is found.
after_last-append :
    (s rest : Text) → after_last rest ≡ none → after_last (s ++ close ∷ rest) ≡ some rest
unfolding after_last
after_last-append [] rest h = rw h refl
after_last-append (c ∷ s) rest h = rw (after_last-append s rest h) refl

-- A word: not empty, and no white space in it.
unfoldable pub has_space : Text → Bool
has_space [] = false
has_space (c ∷ s) = if is_space c then true else has_space s

fields_loop-word :
    (cur w s : Text) → has_space w ≡ false → fields_loop cur (w ++ s) ≡ fields_loop (cur ++ w) s
unfolding fields_loop has_space
fields_loop-word cur [] s h = ap (λ x. fields_loop x s) (sym (append-nil cur))
fields_loop-word cur (c ∷ w) s h =
    ground (arith, h, fields_loop-word (cur ++ c ∷ []) w s, append_assoc cur (c ∷ []) w)

fields_loop-blank :
    (w s : Text) → is_empty w ≡ false → fields_loop w (32 ∷ s) ≡ w ∷ fields_loop [] s
unfolding fields_loop is_space
fields_loop-blank w s h = rw h refl

-- A blank, the three first words, each followed by a blank, and the rest.
abbrev pub stat_rest : Text → Text → Text → Text → Text
stat_rest state ppid pgrp rest = 32 ∷ (state ++ (32 ∷ (ppid ++ (32 ∷ (pgrp ++ (32 ∷ rest))))))

-- A column of the file.
pub record IsWord (w : Text) : Type 0 where
  pub full : is_empty w ≡ false
  pub solid : has_space w ≡ false

fields_loop-next : (w s : Text) → IsWord w → fields_loop [] (w ++ 32 ∷ s) ≡ w ∷ fields_loop [] s
fields_loop-next w s k = fields_loop-word [] w (32 ∷ s) k.solid ∙ fields_loop-blank w s k.full

fields-stat_rest :
    (state ppid pgrp rest : Text)
    → IsWord state
    → IsWord ppid
    → IsWord pgrp
    → fields (stat_rest state ppid pgrp rest) ≡ state ∷ ppid ∷ pgrp ∷ fields_loop [] rest
unfolding fields fields_loop is_space is_empty
fields-stat_rest state ppid pgrp rest a b c =
    fields_loop-next state (ppid ++ (32 ∷ (pgrp ++ (32 ∷ rest)))) a
    ∙ ap (λ x. state ∷ x)
        (fields_loop-next ppid (pgrp ++ (32 ∷ rest)) b
          ∙ ap (λ x. ppid ∷ x) (fields_loop-next pgrp rest c))

-- A column is found at its place.
number_at-fields :
    (atoi : Text → Option ℕ) (n : ℕ) (s w : Text) (found : List Text)
    → fields s ≡ found
    → nth n found ≡ some w
    → number_at atoi n s ≡ atoi w
unfolding number_at
number_at-fields atoi n s w found e at_n = ground (arith, e, ap (nth n) e, at_n)

long_enough :
    (state ppid pgrp rest : Text) → leb (length (stat_rest state ppid pgrp rest)) 1 ≡ false
long_enough state ppid pgrp rest =
    ground (arith, length-append state (32 ∷ (ppid ++ (32 ∷ (pgrp ++ (32 ∷ rest))))))

-- The parent and the group are read from their columns, whatever the name of the program, which stands
-- in parentheses before them, has in it: blanks and parentheses do no harm.
pub stat_ppid-exact :
    (atoi : Text → Option ℕ) (name state ppid pgrp rest : Text)
    → IsWord state
    → IsWord ppid
    → IsWord pgrp
    → after_last (stat_rest state ppid pgrp rest) ≡ none
    → (stat_ppid atoi (some (name ++ close ∷ stat_rest state ppid pgrp rest))
        ≡ or_else 0 (atoi ppid))
      × (proc_group_id atoi (some (name ++ close ∷ stat_rest state ppid pgrp rest)) ≡ atoi pgrp)
unfolding stat_ppid proc_group_id nth
stat_ppid-exact atoi name state ppid pgrp rest a b c plain =
    let found = after_last-append name (stat_rest state ppid pgrp rest) plain in
    let columns = fields-stat_rest state ppid pgrp rest a b c in
    (
      ground (
        arith,
        found,
        number_at-fields atoi 1 (stat_rest state ppid pgrp rest) ppid _ columns refl,
      ),
      ground (
        arith,
        found,
        long_enough state ppid pgrp rest,
        number_at-fields atoi 2 (stat_rest state ppid pgrp rest) pgrp _ columns refl,
      ),
    )
