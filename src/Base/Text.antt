-- ===== src/Base/Text.antt =====
-- Go's strings as native texts, so as sequences of code points: `strings.Split` at one character,
-- `strings.Fields` and `strings.Contains`.
use Prim.Native.Nat.{ℕ}
use Prim.Native.Char.{Char, code}
use Prim.Native.String.{String, ◌++◌ as ◌<>◌}
use mathlib.Core.Path.{◌≡◌, refl, ap, ap₂, ◌∙◌}
use mathlib.Core.Logic.{◌≢◌, inl, inr}
use mathlib.Core.Bool.{Bool, true, false, ◌&&◌, ◌||◌}
use mathlib.Core.Option.{none, some}
use mathlib.Core.List.{List, [], ◌∷◌}
use native.Mathlib.Omega.{arith}
use text.Mathlib.Text.{find?}
use text.Mathlib.TextEquality.{Char-path}
use text.Mathlib.TextLemmas.{nil-append, cons-append}
use exoscale_csi_driver.Base.Tests.{Bool-cases, leb, ◌==◌, if◌then◌else◌}

-- Whether the character with code `k` stands in the text.
unfoldable pub has_char : ℕ → String → Bool
has_char k String.[] = false
has_char k (String.◌∷◌ c s) = code c == k || has_char k s

-- A character goes to the front of the first part.
abbrev push_front : Char → List String → List String
push_front c [] = String.◌∷◌ c "" ∷ []
push_front c (x ∷ xs) = String.◌∷◌ c x ∷ xs

-- `strings.Split(s, sep)` where `sep` is the one character with code `k`.
unfoldable pub split : ℕ → String → List String
split k String.[] = "" ∷ []
split k (String.◌∷◌ c s) =
    let rest = split k s in if code c == k then "" ∷ rest else push_front c rest

-- `strings.Contains`
unfoldable pub contains : String → String → Bool
contains s part = elim (find? s part) [ none ↦ false | some _ ↦ true ]

-- `unicode.IsSpace`
unfoldable pub is_space : Char → Bool
is_space c =
    (leb 9 (code c) && leb (code c) 13)
    || code c == 32
    || code c == 0x85
    || code c == 0xa0
    || code c == 0x1680
    || (leb 0x2000 (code c) && leb (code c) 0x200a)
    || code c == 0x2028
    || code c == 0x2029
    || code c == 0x202f
    || code c == 0x205f
    || code c == 0x3000

-- `strings.Fields`: the flag says whether the scan stands inside a field.
fields_from : Bool → String → List String
fields_from inside String.[] = if inside then "" ∷ [] else []
fields_from inside (String.◌∷◌ c s) =
    let rest = fields_from (if is_space c then false else true) s in
    if is_space c then (if inside then "" ∷ rest else rest) else push_front c rest

unfoldable pub fields : String → List String
unfolding fields_from is_space
fields s = fields_from false s

-- A text with no separator is one part.
pub split_single : (k : ℕ) (s : String) → has_char k s ≡ false → split k s ≡ s ∷ []
unfolding split has_char
split_single k String.[] h = refl
split_single k (String.◌∷◌ c s) h = ground (arith, split_single k s)

-- The text before the first separator is the first part.
pub split-append :
    (k : ℕ) (c : Char) (s t : String)
    → code c ≡ k
    → has_char k s ≡ false
    → split k (s <> String.◌∷◌ c t) ≡ s ∷ split k t
unfolding split has_char
split-append k c String.[] t e h = rw nil-append (ground arith)
split-append k c (String.◌∷◌ d s) t e h = rw cons-append (ground (arith, split-append k c s t e))

-- The parts, with the separator between them.
abbrev pub join : Char → List String → String
join c [] = ""
join c (x ∷ []) = x
join c (x ∷ y ∷ r) = x <> String.◌∷◌ c (join c (y ∷ r))

abbrev pub HasNo : ℕ → List String → Type 0
HasNo k [] = Unit
HasNo k (x ∷ xs) = (has_char k x ≡ false) × HasNo k xs

join-push_front :
    (c d : Char) (parts : List String)
    → parts ≢ []
    → join c (push_front d parts) ≡ String.◌∷◌ d (join c parts)
join-push_front c d [] h = absurd (h refl)
join-push_front c d (x ∷ []) h = refl
join-push_front c d (x ∷ y ∷ r) h = cons-append d x _

join-empty :
    (c : Char) (parts : List String)
    → parts ≢ []
    → join c ("" ∷ parts) ≡ String.◌∷◌ c (join c parts)
join-empty c [] h = absurd (h refl)
join-empty c (y ∷ r) h = nil-append _

push_front-ne-nil : (c : Char) (parts : List String) → push_front c parts ≢ []
push_front-ne-nil c [] h = cc
push_front-ne-nil c (x ∷ xs) h = cc

split-ne-nil : (k : ℕ) (s : String) → split k s ≢ []
unfolding split
split-ne-nil k String.[] h = cc
split-ne-nil k (String.◌∷◌ c s) h = ground (arith, push_front-ne-nil c (split k s))

-- Splitting is undone by joining.
pub join-split : (c : Char) (s : String) → join c (split (code c) s) ≡ s
unfolding split
join-split c String.[] = refl
join-split c (String.◌∷◌ d s) = elim (Bool-cases (code d == code c)) [
  | inl e ↦ rw e (
      join-empty c (split (code c) s) (split-ne-nil (code c) s)
      ∙ ap₂ String.◌∷◌ (Char-path c d (ground arith)) (join-split c s))
  | inr e ↦ rw e (
      join-push_front c d (split (code c) s) (split-ne-nil (code c) s)
      ∙ ap (String.◌∷◌ d) (join-split c s))
]

push_front-HasNo :
    (k : ℕ) (d : Char) (parts : List String)
    → (code d == k) ≡ false
    → HasNo k parts
    → HasNo k (push_front d parts)
unfolding has_char
push_front-HasNo k d [] e h = (ground arith, tt)
push_front-HasNo k d (x ∷ xs) e h = (ground arith, h.1)

-- No part holds the separator.
pub split-HasNo : (k : ℕ) (s : String) → HasNo k (split k s)
unfolding split has_char
split-HasNo k String.[] = (refl, tt)
split-HasNo k (String.◌∷◌ d s) = elim (Bool-cases (code d == k)) [
  | inl e ↦ rw e (refl, split-HasNo k s)
  | inr e ↦ rw e (push_front-HasNo k d (split k s) e (split-HasNo k s))
]
