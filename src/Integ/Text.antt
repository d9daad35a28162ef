-- ===== src/Integ/Text.antt =====
-- `strings.Split`, `strings.ReplaceAll`, `strings.HasPrefix` and `strings.TrimSpace`, as far as the
-- integration tests use them: the separator and the replaced text are not empty.
use exoscale_csi_driver.Base.{
  ℕ, zero, suc, ◌-◌, String, ◌<>◌, Char, ◌≡◌, refl, Bool, true, false, ◌&&◌, List, [], ◌∷◌,
  if◌then◌else◌, is_space,
}
use text.Mathlib.Text.{starts_with}

-- The number of characters.
abbrev size : String → ℕ
size String.[] = 0
size (String.◌∷◌ c s) = suc (size s)

abbrev push_front : Char → List String → List String
push_front c [] = String.◌∷◌ c "" ∷ []
push_front c (x ∷ xs) = String.◌∷◌ c x ∷ xs

-- The parts of the rest of a text of which the next `skipped` characters belong to a separator.
parts_from : String → ℕ → String → List String
parts_from sep skipped String.[] = "" ∷ []
parts_from sep (suc skipped) (String.◌∷◌ c s) = parts_from sep skipped s
parts_from sep zero (String.◌∷◌ c s) = elim (starts_with (String.◌∷◌ c s) sep) [
  | true ↦ "" ∷ parts_from sep (size sep - 1) s
  | false ↦ push_front c (parts_from sep zero s)
]

-- `strings.Split(s, sep)`
unfoldable pub split_text : String → String → List String
unfolding parts_from
split_text sep s = parts_from sep 0 s

abbrev join_text : String → List String → String
join_text sep [] = ""
join_text sep (x ∷ []) = x
join_text sep (x ∷ y ∷ r) = x <> (sep <> join_text sep (y ∷ r))

-- `strings.ReplaceAll(s, old, new)`
unfoldable pub replace_all : String → String → String → String
unfolding split_text
replace_all old new s = join_text new (split_text old s)

-- `strings.TrimSpace(s) == ""`
unfoldable pub is_blank : String → Bool
unfolding is_space
is_blank String.[] = true
is_blank (String.◌∷◌ c s) = is_space c && is_blank s

-- `strings.TrimSpace`, first on the left, then on the right.
trim_left : String → String
unfolding is_space
trim_left String.[] = ""
trim_left (String.◌∷◌ c s) = let rest = trim_left s in if is_space c then rest else String.◌∷◌ c s

trim_right : String → String
unfolding is_space is_blank
trim_right String.[] = ""
trim_right (String.◌∷◌ c s) =
    let rest = trim_right s in if is_blank (String.◌∷◌ c s) then "" else String.◌∷◌ c rest

unfoldable pub trim_space : String → String
unfolding trim_left trim_right
trim_space s = trim_right (trim_left s)

split_text_examples :
    (split_text "\n---\n" "a\n---\nb\n---\n" ≡ "a" ∷ "b" ∷ "" ∷ [])
    × (split_text "aa" "aaa" ≡ "" ∷ "a" ∷ [])
    × (split_text "--" "x" ≡ "x" ∷ [])
unfolding split_text
split_text_examples = (refl, refl, refl)

replace_all_example :
    replace_all "csi:latest" "csi:test" "image: csi:latest, csi:latest\n"
    ≡ "image: csi:test, csi:test\n"
unfolding replace_all
replace_all_example = refl

trim_space_examples : (trim_space " a b\n" ≡ "a b") × (is_blank " \n\t" ≡ true)
unfolding trim_space is_blank
trim_space_examples = (refl, refl)
