-- ===== src/Text.antt =====
-- The methods of Python's `str` that the program calls, on lists of code points.
-- `lower`, `strip` and `title` are those of ASCII text.
use Prim.Native.Char.{code}
use geo_optimizer.Base.{
  Bool, List, Option, String, [], codes_eq, false, if◌then◌else◌, is_empty, leb, ltb, map, nat_eq,
  none, refl, some, suc, true, zero, ℕ, ◌%◌, ◌&&◌, ◌++◌, ◌+◌, ◌-◌, ◌/◌, ◌==◌, ◌||◌, ◌∷◌, ◌≡◌,
}
use mathlib.Core.List.{reverse}

abbrev pub Text : Type 0
Text = List ℕ

-- A literal of the source.
unfoldable pub lit : String → Text
lit String.[] = []
lit (String.◌∷◌ c s) = code c ∷ lit s

abbrev pub is_upper : ℕ → Bool
is_upper c = leb 65 c && leb c 90

abbrev pub is_lower : ℕ → Bool
is_lower c = leb 97 c && leb c 122

unfoldable pub lower_char : ℕ → ℕ
lower_char c = if is_upper c then c + 32 else c

unfoldable pub upper_char : ℕ → ℕ
upper_char c = if is_lower c then c - 32 else c

-- `s.lower()`
unfoldable pub lower : Text → Text
unfolding lower_char
lower = map lower_char

-- What `str.strip()` takes off: tab to carriage return, the four separators, space.
unfoldable pub is_space : ℕ → Bool
is_space c = (leb 9 c && leb c 13) || (leb 28 c && leb c 32)

unfoldable pub lstrip_where : (ℕ → Bool) → Text → Text
lstrip_where p [] = []
lstrip_where p (c ∷ s) = let rest = lstrip_where p s in if p c then rest else c ∷ s

unfoldable pub rstrip_where : (ℕ → Bool) → Text → Text
unfolding lstrip_where
rstrip_where p s = reverse (lstrip_where p (reverse s))

-- `s.strip()`, and `s.strip("c")` for one character.
unfoldable pub strip : Text → Text
unfolding lstrip_where rstrip_where is_space
strip s = rstrip_where is_space (lstrip_where is_space s)

unfoldable pub strip_char : ℕ → Text → Text
unfolding lstrip_where rstrip_where
strip_char k s = rstrip_where (λ c. c == k) (lstrip_where (λ c. c == k) s)

unfoldable pub rstrip_char : ℕ → Text → Text
unfolding rstrip_where
rstrip_char k s = rstrip_where (λ c. c == k) s

unfoldable pub starts_with : Text → Text → Bool
starts_with [] s = true
starts_with (p ∷ ps) [] = false
starts_with (p ∷ ps) (c ∷ s) = p == c && starts_with ps s

-- The part before the first occurrence of a character, and what follows that, if it occurs.
unfoldable pub before : ℕ → Text → Text
before k [] = []
before k (c ∷ s) = if c == k then [] else c ∷ before k s

unfoldable pub after : ℕ → Text → Option Text
after k [] = none
after k (c ∷ s) = let rest = after k s in if c == k then some s else rest

add_char : ℕ → List Text → List Text
add_char c [] = (c ∷ []) ∷ []
add_char c (part ∷ parts) = (c ∷ part) ∷ parts

-- `s.split("c")`, which never returns an empty list.
unfoldable pub split : ℕ → Text → List Text
unfolding add_char
split k [] = [] ∷ []
split k (c ∷ s) = let rest = split k s in if c == k then [] ∷ rest else add_char c rest

-- `sep.join(parts)`
unfoldable pub join : Text → List Text → Text
join sep [] = []
join sep (s ∷ []) = s
join sep (s ∷ t ∷ rest) = s ++ (sep ++ join sep (t ∷ rest))

-- `p in s`, on texts.
unfoldable pub occurs : Text → Text → Bool
unfolding starts_with
occurs p [] = is_empty p
occurs p (c ∷ s) = starts_with p (c ∷ s) || occurs p s

-- The parts before and after the last occurrence of a character.
unfoldable pub rpartition : ℕ → Text → Option (Text × Text)
rpartition k [] = none
rpartition k (c ∷ s) = elim (rpartition k s) [
  | some (a, b) ↦ some (c ∷ a, b)
  | none ↦ if c == k then some ([], s) else none
]

digits : ℕ → ℕ → Text → Text
digits zero n acc = acc
digits (suc fuel) n acc =
    let more = digits fuel (n / 10) ((48 + n % 10) ∷ acc) in
    if ltb n 10 then (48 + n) ∷ acc else more

-- `str(n)`; a number has at most as many digits as its successor.
unfoldable pub decimal : ℕ → Text
unfolding digits
decimal n = digits (suc n) n []

-- The order of `<` on texts.
unfoldable pub text_lt : Text → Text → Bool
text_lt [] [] = false
text_lt [] (b ∷ t) = true
text_lt (a ∷ s) [] = false
text_lt (a ∷ s) (b ∷ t) = ltb a b || (a == b && text_lt s t)

-- `s.replace("a", "b")` for single characters.
unfoldable pub replace_char : ℕ → ℕ → Text → Text
replace_char a b = map (λ c. if c == a then b else c)

-- `s.title()`: a letter is upper case at the start of a word and lower case inside it.
title_from : Bool → Text → Text
unfolding lower_char upper_char
title_from inside [] = []
title_from inside (c ∷ s) =
    (if inside then lower_char c else upper_char c) ∷ title_from (is_upper c || is_lower c) s

unfoldable pub title : Text → Text
unfolding title_from
title = title_from false

split_example : split b'/' (lit "a/b//") ≡ lit "a" ∷ lit "b" ∷ [] ∷ [] ∷ []
unfolding split lit
split_example = refl

strip_example : strip (lit "  a b ") ≡ lit "a b"
unfolding strip lit
strip_example = refl

title_example : title (lit "aPI docs") ≡ lit "Api Docs"
unfolding title lit
title_example = refl
