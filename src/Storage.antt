-- ===== src/Storage.antt =====
-- storage/storage.go: the upload policy and the readers that keep to it. A source is what its reads
-- return, and whether it ends with an error instead of EOF.
pub mod Paths
pub mod Local
pub mod Caps
pub mod Place
pub mod Store
pub mod Refine
mod Uploads
pub mod Clients
pub mod Whole
mod Tests
use xlgo_core.Base.{
  ℕ, zero, suc, ◌+◌, ◌-◌, List, [], ◌∷◌, ◌++◌, map, Bool, true, false, not, ◌&&◌, ◌||◌, ◌==◌, ltb,
  leb, if◌then◌else◌, Option, none, some, Result, ok, err, length, take, drop, any,
}
use xlgo_core.Base.Text.{Text, text_eq, to_lower, trim_space, split_on}
use xlgo_core.Base.Int.{ℤ, pos, negsuc, ltb_ℤ}
use xlgo_core.Storage.Paths.{
  StorageError, upload_too_large, invalid_path, sniff_failed, save_failed, ext,
}

-- `config.UploadPolicy`
pub record UploadPolicy : Type 0 where
  pub max_size_bytes : ℤ
  pub allowed_exts : List Text
  pub allowed_mimes : List Text

pub record Source : Type 0 where
  pub chunks : List Text
  pub broken : Bool

abbrev pub default_max_read_bytes : ℕ
default_max_read_bytes = 104857600

-- `resolveMaxRead`
unfoldable pub resolve_max_read : ℤ → ℤ
resolve_max_read (negsuc n) = negsuc 0
resolve_max_read (pos zero) = pos default_max_read_bytes
resolve_max_read (pos (suc n)) = pos (suc n)

-- `validateUploadSize`, and the error if there is one
unfoldable pub validate_upload_size : UploadPolicy → ℤ → Option StorageError
validate_upload_size p size =
    if ltb_ℤ (pos 0) p.max_size_bytes && ltb_ℤ p.max_size_bytes size
    then some upload_too_large
    else none

-- `containsString`
unfoldable pub contains_string : List Text → Text → Bool
unfolding text_eq
contains_string list v = any (λ s. text_eq s v) list

-- `validateUploadExt`
unfoldable pub validate_upload_ext : UploadPolicy → Text → Option StorageError
unfolding contains_string to_lower ext
validate_upload_ext p filename = elim p.allowed_exts [
  | [] ↦ none
  | x ∷ xs ↦
      if contains_string (x ∷ xs) (map to_lower (ext filename)) then none else some invalid_path
]

abbrev pub bytes_of : List Text → Text
bytes_of [] = []
bytes_of (c ∷ cs) = c ++ bytes_of cs

-- The chunks after so many bytes
unfoldable pub drop_bytes : ℕ → List Text → List Text
drop_bytes n [] = []
drop_bytes n (c ∷ cs) =
    let later = drop_bytes (n - length c) cs in if ltb n (length c) then drop n c ∷ cs else later

first_of : List Text → Text
first_of [] = []
first_of (s ∷ ss) = s

-- The type before the semicolon, in small letters
unfoldable pub main_type : Text → Text
unfolding to_lower trim_space split_on first_of
main_type m = map to_lower (trim_space (first_of (split_on b';' m)))

abbrev pub mime_sniff_prefix_len : ℕ
mime_sniff_prefix_len = 512

-- `io.MultiReader` of the head and the rest: an empty head is passed over.
unfoldable pub with_head : Text → List Text → List Text
with_head [] rest = rest
with_head (c ∷ s) rest = (c ∷ s) ∷ rest

unfoldable pub sniff_for : (Text → Text) → List Text → Source → Result StorageError Source
unfolding contains_string main_type with_head drop_bytes
sniff_for detect [] src = ok src
sniff_for detect (m ∷ ms) src =
    let head = take mime_sniff_prefix_len (bytes_of src.chunks) in
    if src.broken && ltb (length head) mime_sniff_prefix_len
    then err sniff_failed
    else if contains_string (map main_type (m ∷ ms)) (main_type (detect head))
    then ok (record src { chunks = with_head head (drop_bytes mime_sniff_prefix_len src.chunks) })
    else err invalid_path

-- `sniffUploadMIME`, for what `http.DetectContentType` says of a head
unfoldable pub sniff_upload_mime :
    (Text → Text) → UploadPolicy → Source → Result StorageError Source
unfolding sniff_for
sniff_upload_mime detect p src = sniff_for detect p.allowed_mimes src

-- What `io.Copy` writes, and the error that ends it.
pub record Copied : Type 0 where
  pub written : Text
  pub fault : Option StorageError

-- What a read leads to, where the limit was reached before it or is passed by it
unfoldable pub read_next : Bool → Bool → Text → Copied → Copied
read_next true over c rest = record {
  written = [];
  fault = if length c == 0 then none else some upload_too_large;
}
read_next false true c rest = record { written = []; fault = some upload_too_large }
read_next false false c rest = record { written = c ++ rest.written; fault = rest.fault }

-- `io.Copy` from `enforceMaxReader`: at the limit a read is a probe of one byte, whose error is not
-- looked at.
unfoldable pub copy_capped : ℕ → ℕ → List Text → Bool → Copied
unfolding read_next
copy_capped max count [] broken = record {
  written = [];
  fault = if not (leb max count) && broken then some save_failed else none;
}
copy_capped max count (c ∷ cs) broken =
    read_next (leb max count) (ltb max (count + length c)) c
      (copy_capped max (count + length c) cs broken)

unfoldable pub copy_all : Source → Copied
copy_all src = record {
  written = bytes_of src.chunks;
  fault = if src.broken then some save_failed else none;
}

unfoldable pub copy_under : ℤ → Source → Copied
unfolding copy_capped copy_all
copy_under (negsuc n) src = copy_all src
copy_under (pos max) src =
    if max == 0 then copy_all src else copy_capped max 0 src.chunks src.broken

-- `io.Copy` from `enforceUploadSize`
unfoldable pub copy_upload : UploadPolicy → Source → Copied
unfolding copy_under
copy_upload p src = copy_under p.max_size_bytes src

-- A read of at most `max` bytes, through `io.LimitReader` of one more
unfoldable pub read_capped : ℤ → Text → Option Text
read_capped (negsuc n) content = some content
read_capped (pos zero) content = some content
read_capped (pos (suc max)) content =
    let got = take (suc (suc max)) content in if ltb (suc max) (length got) then none else some got
