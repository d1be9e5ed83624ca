-- ===== src/Prelude/Texts.antt =====
-- Go strings as lists of code points, with the functions of package strings that the program calls.
use Prim.Native.Nat.{ℕ}
use Prim.Native.Char.{code}
use Prim.Native.String.{String}
use mathlib.Core.Path.{◌≡◌, refl}
use mathlib.Core.Logic.{◌↔◌, ◌≢◌, ◌⊎◌, inl, inr}
use mathlib.Core.Bool.{Bool, true, false, ◌&&◌, ◌||◌}
use mathlib.Core.List.{List, [], ◌∷◌, reverse}
use native.Mathlib.Omega.{arith}
use llama_proxy.Prelude.Tests.{Bool-cases, ltb, leb, ◌==◌, if◌then◌else◌}
use llama_proxy.Prelude.Lists.{In}

abbrev pub Text : Type 0
Text = List ℕ

abbrev pub codes : String → Text
codes String.[] = []
codes (String.◌∷◌ c s) = code c ∷ codes s

unfoldable pub eq_text : Text → Text → Bool
eq_text [] [] = true
eq_text [] (b ∷ bs) = false
eq_text (a ∷ as') [] = false
eq_text (a ∷ as') (b ∷ bs) = (a == b) && eq_text as' bs

pub eq_text_refl : (a : Text) → eq_text a a ≡ true
unfolding eq_text
eq_text_refl [] = refl
eq_text_refl (x ∷ xs) = ground (arith, eq_text_refl xs)

pub eq_text→eq : (a b : Text) → eq_text a b ≡ true → a ≡ b
unfolding eq_text
eq_text→eq [] [] h = refl
eq_text→eq [] (b ∷ bs) h = cc
eq_text→eq (a ∷ as') [] h = cc
eq_text→eq (a ∷ as') (b ∷ bs) h = ground (arith, eq_text→eq as' bs)

pub eq_text_iff : (a b : Text) → (eq_text a b ≡ true) ↔ (a ≡ b)
eq_text_iff a b = (eq_text→eq a b, λ e. rw e (eq_text_refl b))

unfoldable pub is_empty : Text → Bool
is_empty [] = true
is_empty (x ∷ xs) = false

pub is_empty-nil : is_empty [] ≡ true
unfolding is_empty
is_empty-nil = refl

pub false-eq_text : (a b : Text) → a ≢ b → eq_text a b ≡ false
false-eq_text a b n = elim (Bool-cases (eq_text a b)) [
  | inl t ↦ absurd (n (eq_text→eq a b t))
  | inr f ↦ f
]

-- `member x s` is `s[x]` for a Go `map[string]bool` that holds only true.
unfoldable pub member : Text → List Text → Bool
member x [] = false
member x (y ∷ ys) = eq_text y x || member x ys

pub member→In : (x : Text) (s : List Text) → member x s ≡ true → In x s
unfolding member
member→In x [] h = cc
member→In x (y ∷ ys) h = ground (arith, eq_text→eq y x, member→In x ys)

pub In→member : (x : Text) (s : List Text) → In x s → member x s ≡ true
unfolding member
In→member x [] h = absurd h
In→member x (y ∷ ys) (inl e) = rw (e, eq_text_refl x) refl
In→member x (y ∷ ys) (inr m) = ground (arith, In→member x ys m)

-- unicode.IsSpace.
unfoldable pub is_space : ℕ → Bool
is_space c =
    (leb 9 c && leb c 13)
    || c == 32
    || c == 0x85
    || c == 0xa0
    || c == 0x1680
    || (leb 0x2000 c && leb c 0x200a)
    || c == 0x2028
    || c == 0x2029
    || c == 0x202f
    || c == 0x205f
    || c == 0x3000

unfoldable pub trim_left_if : (ℕ → Bool) → Text → Text
trim_left_if p [] = []
trim_left_if p (c ∷ cs) = let rest = trim_left_if p cs in if p c then rest else c ∷ cs

unfoldable pub trim_right_if : (ℕ → Bool) → Text → Text
unfolding trim_left_if
trim_right_if p s = reverse (trim_left_if p (reverse s))

-- strings.TrimSpace.
unfoldable pub trim_space : Text → Text
unfolding trim_left_if trim_right_if is_space
trim_space s = trim_right_if is_space (trim_left_if is_space s)

-- strings.HasPrefix s p.
unfoldable pub has_prefix : Text → Text → Bool
has_prefix s [] = true
has_prefix [] (b ∷ bs) = false
has_prefix (a ∷ as') (b ∷ bs) = (a == b) && has_prefix as' bs

-- strings.Contains s p.
unfoldable pub contains : Text → Text → Bool
unfolding has_prefix
contains [] p = has_prefix [] p
contains (a ∷ as') p = has_prefix (a ∷ as') p || contains as' p

-- The byte order of UTF-8 is the order of code points.
unfoldable pub leb_text : Text → Text → Bool
leb_text [] b = true
leb_text (a ∷ as') [] = false
leb_text (a ∷ as') (b ∷ bs) = ltb a b || (a == b && leb_text as' bs)

insert_text : Text → List Text → List Text
insert_text x [] = x ∷ []
insert_text x (y ∷ ys) =
    let rest = insert_text x ys in if leb_text x y then x ∷ y ∷ ys else y ∷ rest

-- sort.Strings.
unfoldable pub sort_texts : List Text → List Text
unfolding insert_text leb_text
sort_texts [] = []
sort_texts (x ∷ xs) = insert_text x (sort_texts xs)

insert_text-In : (n x : Text) (xs : List Text) → In n (insert_text x xs) → (x ≡ n) ⊎ In n xs
unfolding insert_text
insert_text-In n x [] h = h
insert_text-In n x (y ∷ ys) h = ground (arith, insert_text-In n x ys)

In-insert_text : (n x : Text) (xs : List Text) → (x ≡ n) ⊎ In n xs → In n (insert_text x xs)
unfolding insert_text
In-insert_text n x [] h = h
In-insert_text n x (y ∷ ys) h = ground (arith, In-insert_text n x ys)

pub sort_texts-In : (n : Text) (xs : List Text) → In n (sort_texts xs) → In n xs
unfolding sort_texts
sort_texts-In n [] h = h
sort_texts-In n (x ∷ xs) h =
    ground (arith, insert_text-In n x (sort_texts xs) h, sort_texts-In n xs)

pub In-sort_texts : (n : Text) (xs : List Text) → In n xs → In n (sort_texts xs)
unfolding sort_texts
In-sort_texts n [] h = h
In-sort_texts n (x ∷ xs) h = ground (arith, In-sort_texts n xs, In-insert_text n x (sort_texts xs))

pub is_empty-false : (s : Text) → s ≢ [] → is_empty s ≡ false
unfolding is_empty
is_empty-false [] h = absurd (h refl)
is_empty-false (c ∷ cs) h = refl

pub is_empty→nil : (s : Text) → is_empty s ≡ true → s ≡ []
unfolding is_empty
is_empty→nil [] h = refl
is_empty→nil (c ∷ cs) h = cc
