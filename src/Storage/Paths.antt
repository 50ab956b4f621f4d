-- ===== src/Storage/Paths.antt =====
-- storage/storage.go: sanitizeObjectKey, publicURL and safeJoin, with what they use of Go's `path`
-- and `path/filepath` on a system whose separator is the slash.
pub mod Clean
pub mod Anchor
pub mod Relative
pub mod Accept
use mathlib.Core.List.{reverse}
use xlgo_core.Base.{
  ℕ, List, [], ◌∷◌, ◌++◌, Bool, true, false, not, ◌&&◌, ◌||◌, ◌==◌, if◌then◌else◌, Result, ok, err,
  Option, none, some, ◌≡◌, refl,
}
use xlgo_core.Base.Text.{Text, codes, text_eq, has_prefix, contains_rune, split_on, join}

abbrev pub slash : ℕ
slash = b'/'

abbrev pub dot : Text
dot = b'.' ∷ []

abbrev pub dot_dot : Text
dot_dot = b'.' ∷ b'.' ∷ []

-- The errors of the package, and the ones of the calls it makes, by the call.
pub data StorageError : Type 0 where
  not_initialized path_traversal invalid_path invalid_file upload_too_large read_too_large :
      StorageError
  mkdir_failed open_failed sniff_failed create_failed save_failed close_failed : StorageError
  remove_failed read_failed stat_failed put_failed unsupported_driver : StorageError

-- What `path.Clean` does with a segment.
pub data Segment : Type 0 where
  skip up name : Segment

unfoldable pub segment : Text → Segment
unfolding text_eq
segment s = if text_eq s [] || text_eq s dot then skip else if text_eq s dot_dot then up else name

-- A `..` takes back the last segment; at the root it does nothing, and before the start it stays.
unfoldable pub pop : Bool → List Text → List Text
unfolding segment
pop true [] = []
pop false [] = dot_dot ∷ []
pop rooted (t ∷ acc) = elim (segment t) [ up ↦ dot_dot ∷ t ∷ acc | skip ↦ acc | name ↦ acc ]

unfoldable pub push : Bool → Text → List Text → List Text
unfolding segment pop
push rooted s acc = elim (segment s) [ skip ↦ acc | up ↦ pop rooted acc | name ↦ s ∷ acc ]

-- The segments that are left, the last one first.
unfoldable pub resolve : Bool → List Text → List Text → List Text
unfolding push
resolve rooted acc [] = acc
resolve rooted acc (s ∷ ss) = resolve rooted (push rooted s acc) ss

unfoldable pub relative : List Text → Text
unfolding join
relative [] = dot
relative (s ∷ acc) = join (slash ∷ []) (reverse (s ∷ acc))

-- `path.Clean`
unfoldable pub clean : Text → Text
unfolding resolve split_on join relative
clean [] = dot
clean (c ∷ s) =
    if c == slash
    then slash ∷ join (slash ∷ []) (reverse (resolve true [] (split_on slash s)))
    else relative (resolve false [] (split_on slash (c ∷ s)))

-- `path.Join` and `filepath.Join`: the elements from the first one that is not empty.
unfoldable pub join_path : List Text → Text
unfolding clean join
join_path [] = []
join_path ([] ∷ ps) = join_path ps
join_path ((c ∷ s) ∷ ps) = clean (join (slash ∷ []) ((c ∷ s) ∷ ps))

-- `filepath.IsAbs`
unfoldable pub is_abs : Text → Bool
unfolding has_prefix
is_abs p = has_prefix p (slash ∷ [])

-- `filepath.Ext`, on the reversed name
unfoldable pub ext_from : Text → Text → Text
ext_from acc [] = []
ext_from acc (c ∷ s) =
    if c == slash then [] else if c == b'.' then c ∷ acc else ext_from (c ∷ acc) s

unfoldable pub ext : Text → Text
unfolding ext_from
ext filename = ext_from [] (reverse filename)

-- `strings.ReplaceAll(s, "\\", "/")`
unfoldable pub forward_slashes : Text → Text
forward_slashes [] = []
forward_slashes (c ∷ s) = (if c == b'\\' then slash else c) ∷ forward_slashes s

-- `strings.Contains(s, "..")`
unfoldable pub contains_dot_dot : Text → Bool
unfolding has_prefix
contains_dot_dot [] = false
contains_dot_dot (c ∷ s) = has_prefix (c ∷ s) dot_dot || contains_dot_dot s

checked_key : Text → Result StorageError Text
unfolding contains_dot_dot has_prefix clean
checked_key key =
    if contains_dot_dot key
    then err path_traversal
    else if has_prefix key (slash ∷ [])
    then err path_traversal
    else ok (clean key)

-- `sanitizeObjectKey`
unfoldable pub sanitize_object_key : Text → Result StorageError Text
unfolding text_eq contains_rune checked_key forward_slashes
sanitize_object_key key =
    if text_eq key [] || contains_rune key 0
    then err invalid_path
    else checked_key (forward_slashes key)

drop_slashes : Text → Text
drop_slashes [] = []
drop_slashes (c ∷ s) = if c == slash then drop_slashes s else c ∷ s

-- `strings.TrimRight(baseURL, "/")` before the slash and the key
unfoldable pub under_base : Text → Text → Text
unfolding drop_slashes
under_base base key = reverse (drop_slashes (reverse base)) ++ slash ∷ key

-- `publicURL`
unfoldable pub public_url : Text → Text → Text
unfolding sanitize_object_key under_base
public_url base key = elim (sanitize_object_key key) [ err e ↦ [] | ok k ↦ under_base base k ]

-- The error of the first part that is absolute or holds a NUL
unfoldable pub refused_part : List Text → Option StorageError
unfolding is_abs contains_rune
refused_part [] = none
refused_part (p ∷ ps) =
    let rest = refused_part ps in
    if is_abs p then some path_traversal else if contains_rune p 0 then some invalid_path else rest

unfoldable pub anchored : Text → Text → Result StorageError Text
unfolding text_eq has_prefix
anchored root joined =
    if text_eq joined root || not (has_prefix joined (root ++ slash ∷ []))
    then err path_traversal
    else ok joined

-- `safeJoin`, the storage being known by its root; an empty root refuses everything.
unfoldable pub safe_join : Text → List Text → Result StorageError Text
unfolding refused_part anchored join_path
safe_join [] parts = err not_initialized
safe_join (c ∷ root) parts = elim (refused_part parts) [
  | some e ↦ err e
  | none ↦ anchored (c ∷ root) (join_path ((c ∷ root) ∷ parts))
]

path_tests :
    (clean (codes "a/./b//../c/") ≡ codes "a/c")
    × (clean (codes "../../a") ≡ codes "../../a")
    × (clean (codes "/../a") ≡ codes "/a")
    × (join_path ([] ∷ codes "2024/01" ∷ []) ≡ codes "2024/01")
    × (ext (codes "a.tar.gz") ≡ codes ".gz")
    × (ext (codes "a.b/c") ≡ [])
    × (sanitize_object_key (codes "a\\b") ≡ ok (codes "a/b"))
    × (sanitize_object_key (codes "a/../b") ≡ err path_traversal)
    × (public_url (codes "http://h//") (codes "k") ≡ codes "http://h/k")
    × (safe_join (codes "/r") (codes "../r/x" ∷ []) ≡ ok (codes "/r/x"))
    × (safe_join (codes "/r") (codes "a/../.." ∷ []) ≡ err path_traversal)
    × (safe_join (codes "/r") (codes "." ∷ []) ≡ err path_traversal)
unfolding clean join_path ext sanitize_object_key public_url safe_join
path_tests = (refl, refl, refl, refl, refl, refl, refl, refl, refl, refl, refl, refl)
