-- ===== src/Disk/Paths.antt =====
-- `path.Clean`, `path.Join` of two elements and `filepath.Dir`, on a Unix system.
use exoscale_csi_driver.Base.{
  Bool, false, ◌||◌, String, ◌<>◌, str_eq, split, join, List, [], ◌∷◌, if◌then◌else◌, ◌≡◌, refl,
}
use mathlib.Core.List.{reverse}

-- `..` takes the part before it away, if that is a name. At the root it is dropped.
abbrev up : Bool → List String → List String
up rooted [] = if rooted then [] else ".." ∷ []
up rooted (part ∷ stack) = if str_eq part ".." then ".." ∷ part ∷ stack else stack

abbrev push_part : Bool → List String → String → List String
push_part rooted stack part =
    if str_eq part "" || str_eq part "."
    then stack
    else if str_eq part ".."
    then up rooted stack
    else part ∷ stack

-- The parts that are kept, the last one first.
clean_parts : Bool → List String → List String → List String
clean_parts rooted stack [] = stack
clean_parts rooted stack (part ∷ parts) = clean_parts rooted (push_part rooted stack part) parts

-- Whether the path begins with a slash: its first part is empty, and not the only one.
is_rooted : List String → Bool
is_rooted (first ∷ _ ∷ _) = str_eq first ""
is_rooted _ = false

clean_from : Bool → List String → String
clean_from rooted parts =
    let body = join "/" (reverse (clean_parts rooted [] parts)) in
    if rooted then "/" <> body else if str_eq body "" then "." else body

unfoldable pub clean : String → String
unfolding split clean_parts is_rooted clean_from
clean path = clean_from (is_rooted (split b'/' path)) (split b'/' path)

-- Empty elements are left out.
unfoldable pub join_path : String → String → String
unfolding clean
join_path a b =
    if str_eq a ""
    then (if str_eq b "" then "" else clean b)
    else clean (if str_eq b "" then a else a <> ("/" <> b))

-- The parts but the last, each with a slash behind it: the path up to its last slash.
up_to_last_slash : List String → String
up_to_last_slash [] = ""
up_to_last_slash (_ ∷ []) = ""
up_to_last_slash (x ∷ y ∷ r) = x <> ("/" <> up_to_last_slash (y ∷ r))

unfoldable pub dir : String → String
unfolding clean up_to_last_slash
dir path = clean (up_to_last_slash (split b'/' path))

clean_examples :
    (clean "/dev/disk/by-id/virtio-1b5c" ≡ "/dev/disk/by-id/virtio-1b5c")
    × (clean "/a//b/./c/../d/" ≡ "/a/b/d")
    × (clean "../../x/.." ≡ "../..")
    × (clean "/../x" ≡ "/x")
    × (clean "" ≡ ".")
    × (clean "/" ≡ "/")
unfolding clean
clean_examples = (refl, refl, refl, refl, refl, refl)

dir_examples :
    (dir "/var/lib/kubelet/pv" ≡ "/var/lib/kubelet") × (dir "pv" ≡ ".") × (dir "/pv" ≡ "/")
unfolding dir
dir_examples = (refl, refl, refl)
