-- ===== src/Util/Lists.antt =====
-- util/strings/strings.go: sets of strings as slices. A nil slice and an empty one are not told apart.
pub mod Counts
use linhub.Base.{
  Bool, List, Text, [], false, if◌then◌else◌, ltb_ℤ, negsuc, not, pos, str_eq, suc, true, ℤ, ◌++◌,
  ◌||◌, ◌∷◌,
}

-- Whether a map[string]bool that has been filled from a slice has a key.
abbrev pub is_member : List Text → Text → Bool
is_member [] s = false
is_member (t ∷ ts) s = str_eq t s || is_member ts s

unfoldable pub diff : List Text → List Text → List Text
diff [] exclude = []
diff (s ∷ base) exclude =
    let rest = diff base exclude in if not (is_member exclude s) then s ∷ rest else rest

-- Include: the items of the second slice that the first one has.
unfoldable pub include : List Text → List Text → List Text
include base [] = []
include base (s ∷ include_list) =
    let rest = include base include_list in if is_member base s then s ∷ rest else rest

-- The keys of a map that has been filled from a slice; a key is kept once.
abbrev pub keys : List Text → List Text
keys [] = []
keys (s ∷ ss) = let rest = keys ss in if is_member ss s then rest else s ∷ rest

-- Unique, for the order in which a range over a map visits its keys.
unfoldable pub unique : (List Text → List Text) → List Text → List Text
unique visited ss = visited (keys ss)

abbrev after : ℤ → ℤ
after (pos n) = pos (suc n)
after (negsuc n) = negsuc n

-- FindString; -1 when there is none.
unfoldable pub find_string : List Text → Text → ℤ
find_string [] str = negsuc 0
find_string (s ∷ array) str =
    let later = find_string array str in if str_eq str s then pos 0 else after later

unfoldable pub string_in : Text → List Text → Bool
unfolding find_string
string_in str array = ltb_ℤ (negsuc 0) (find_string array str)

-- Filter.
unfoldable pub filter : List Text → Text → List Text
filter [] str_to_filter = []
filter (item ∷ list) str_to_filter =
    let rest = filter list str_to_filter in
    if not (str_eq item str_to_filter) then item ∷ rest else rest

-- Contains.
unfoldable pub contains_string : List Text → Text → Bool
contains_string [] str_to_search = false
contains_string (item ∷ list) str_to_search =
    let rest = contains_string list str_to_search in
    if str_eq item str_to_search then true else rest

-- Add.
unfoldable pub add : List Text → Text → List Text
unfolding contains_string
add list str = if contains_string list str then list else list ++ str ∷ []
