-- ===== src/Storage/Local.antt =====
-- storage/storage.go: `LocalStorage`. The files are a map from absolute paths to contents; which calls
-- of the operating system fail, and what the clock and the random source give, are arguments.
-- Directories are only known by what is said of the path of a call, and there are no symbolic links.
use xlgo_core.Base.{
  ℕ, ◌+◌, ◌-◌, ◌/◌, ◌%◌, List, [], ◌∷◌, ◌++◌, Bool, true, false, not, ◌&&◌, ◌||◌, ltb,
  if◌then◌else◌, Option, none, some, Result, ok, err, ◌>>=◌, length, take,
}
use xlgo_core.Base.Text.{Text, codes, contains_rune}
use xlgo_core.Base.Int.{ℤ, pos}
use xlgo_core.Base.Dict.{Dict, lookup, insert, delete}
use xlgo_core.Base.Decimal.{decimal, two_digits}
use xlgo_core.Storage.{
  UploadPolicy, Source, Copied, resolve_max_read, validate_upload_size, validate_upload_ext,
  sniff_upload_mime, copy_all, copy_upload, read_capped,
}
use xlgo_core.Storage.Paths.{
  StorageError, invalid_file, read_too_large, mkdir_failed, open_failed, create_failed, save_failed,
  close_failed, remove_failed, read_failed, stat_failed, slash, join_path, clean, ext, safe_join,
  public_url, forward_slashes,
}

pub record LocalStorage : Type 0 where
  pub root_abs : Text
  pub base_url : Text
  pub policy : UploadPolicy
  pub max_read_bytes : ℤ

-- `config.LocalStorageConfig`, with what `filepath.Abs` makes of its path
pub record LocalStorageConfig : Type 0 where
  pub abs : Option Text
  pub base_url : Text
  pub upload : UploadPolicy
  pub max_read_bytes : ℤ

-- `NewLocalStorage`; the argument says whether a path is a symbolic link.
unfoldable pub new_local_storage : (Text → Bool) → Option LocalStorageConfig → LocalStorage
unfolding clean resolve_max_read
new_local_storage symlink none = record {
  root_abs = [];
  base_url = [];
  policy = record { max_size_bytes = pos 0; allowed_exts = []; allowed_mimes = [] };
  max_read_bytes = resolve_max_read (pos 0);
}
new_local_storage symlink (some cfg) = record {
  root_abs = elim cfg.abs [ none ↦ [] | some a ↦ if symlink (clean a) then [] else clean a ];
  base_url = cfg.base_url;
  policy = cfg.upload;
  max_read_bytes = resolve_max_read cfg.max_read_bytes;
}

-- What an upload reads of the clock and of the random source
pub record Stamp : Type 0 where
  pub year : ℕ
  pub month : ℕ
  pub day : ℕ
  pub nanos : ℕ
  pub random : List ℕ

-- How the calls of the operating system go: whether they succeed, after how many bytes the disk is
-- full, and whether the path of the call is a directory.
pub record Answers : Type 0 where
  pub mkdir : Bool
  pub opens : Bool
  pub create : Bool
  pub disk : Option ℕ
  pub close : Bool
  pub remove : Bool
  pub read : Bool
  pub stat : Bool
  pub directory : Bool

-- `*multipart.FileHeader`
pub record FileHeader : Type 0 where
  pub filename : Text
  pub size : ℤ
  pub content : Source

unfoldable pub hex_digit : ℕ → ℕ
hex_digit d = if ltb d 10 then b'0' + d else b'a' + (d - 10)

-- `%x`
unfoldable pub hex : List ℕ → Text
unfolding hex_digit
hex [] = []
hex (b ∷ bs) = hex_digit (b / 16 % 16) ∷ hex_digit (b % 16) ∷ hex bs

-- `uniqueFilename`
unfoldable pub unique_filename : Stamp → Text → Text
unfolding decimal hex
unique_filename at extension = decimal at.nanos ++ b'-' ∷ (hex at.random ++ extension)

unfoldable pub date_path : Stamp → Text
unfolding decimal two_digits
date_path at = decimal at.year ++ slash ∷ (two_digits at.month ++ slash ∷ two_digits at.day)

-- The directory of an upload: its path below the root, and its absolute path.
pub record Place : Type 0 where
  pub relative_path : Text
  pub full_path : Text
  pub file_name : Text

unfoldable pub made : Bool → Text → Text → Text → Result StorageError Place
made true rel fname full = ok (record { relative_path = rel; full_path = full; file_name = fname })
made false rel fname full = err mkdir_failed

unfoldable pub place : LocalStorage → Text → Stamp → Text → Answers → Result StorageError Place
unfolding safe_join join_path date_path unique_filename made
place l subdir at extension os =
    let rel = join_path (subdir ∷ date_path at ∷ []) in
    safe_join l.root_abs (rel ∷ []) >>= made os.mkdir rel (unique_filename at extension)

pub record Plan : Type 0 where
  pub target : Place
  pub copied : Copied

-- The checks before the file is opened
unfoldable pub checked :
    Option StorageError
    → Option StorageError
    → Result StorageError Place
    → Result StorageError Place
checked (some e) o r = err e
checked none (some e) r = err e
checked none none r = r

-- `Upload`, up to the creation of the file
unfoldable pub plan_upload :
    LocalStorage → (Text → Text) → FileHeader → Text → Stamp → Answers → Result StorageError Plan
unfolding checked validate_upload_size validate_upload_ext place ext sniff_upload_mime copy_upload
plan_upload l detect file subdir at os =
    checked (validate_upload_size l.policy file.size) (validate_upload_ext l.policy file.filename)
      (place l subdir at (ext file.filename) os)
    >>= λ target.
        (if os.opens then sniff_upload_mime detect l.policy file.content else err open_failed)
        >>= λ src. ok (record { target = target; copied = copy_upload l.policy src })

unfoldable pub or_bin : Text → Text
or_bin [] = codes ".bin"
or_bin (c ∷ s) = c ∷ s

-- A `bytes.Reader`, read whole
unfoldable pub from_bytes : Text → Source
from_bytes [] = record { chunks = []; broken = false }
from_bytes (c ∷ s) = record { chunks = (c ∷ s) ∷ []; broken = false }

-- `UploadFromBytes`, up to the creation of the file
unfoldable pub plan_upload_from_bytes :
    LocalStorage → (Text → Text) → Text → Text → Text → Stamp → Answers → Result StorageError Plan
unfolding checked validate_upload_size validate_upload_ext place ext sniff_upload_mime copy_all
    from_bytes or_bin
plan_upload_from_bytes l detect content filename subdir at os =
    checked (validate_upload_size l.policy (pos (length content)))
      (validate_upload_ext l.policy filename) (place l subdir at (or_bin (ext filename)) os)
    >>= λ target. sniff_upload_mime detect l.policy (from_bytes content) >>= λ src.
        ok (record { target = target; copied = copy_all src })

-- A write that the disk has no room for ends the copy.
unfoldable pub on_disk : Option ℕ → Copied → Copied
on_disk none c = c
on_disk (some room) c =
    if ltb room (length c.written)
    then record { written = take room c.written; fault = some save_failed }
    else c

unfoldable pub closed : Bool → Option StorageError → Option StorageError
closed ok_close (some e) = some e
closed true none = none
closed false none = some close_failed

unfoldable pub settle :
    Bool
    → Text
    → Text
    → Text
    → Option StorageError
    → Dict Text
    → Dict Text × Result StorageError Text
unfolding insert delete
settle removed dst path written none fs = (insert dst written fs, ok path)
settle removed dst path written (some e) fs =
    (if removed then delete dst fs else insert dst written fs, err e)

abbrev pub Reply : Type 0 → Type 0
Reply A = Dict Text × Result StorageError A

-- The path that an upload answers with, before backslashes are replaced
unfoldable pub file_path : Place → Text
unfolding join_path
file_path t = join_path (t.relative_path ∷ t.file_name ∷ [])

unfoldable pub destination : Place → Text
unfolding join_path
destination t = join_path (t.full_path ∷ t.file_name ∷ [])

-- The creation of the file, the copy, and the deferred close with its cleanup
unfoldable pub write_file : Answers → Dict Text → Plan → Reply Text
unfolding settle closed on_disk file_path destination forward_slashes contains_rune
write_file os fs p =
    let dst = destination p.target in
    let c = on_disk os.disk p.copied in
    if not os.create || contains_rune dst 0
    then (fs, err create_failed)
    else settle os.remove dst (forward_slashes (file_path p.target)) c.written
        (closed os.close c.fault) fs

unfoldable pub carried_out : Answers → Dict Text → Result StorageError Plan → Reply Text
unfolding write_file
carried_out os fs (err e) = (fs, err e)
carried_out os fs (ok p) = write_file os fs p

-- `Upload`
unfoldable pub upload :
    LocalStorage
    → (Text → Text)
    → Option FileHeader
    → Text
    → Stamp
    → Answers
    → Dict Text
    → Reply Text
unfolding carried_out plan_upload
upload l detect none subdir at os fs = (fs, err invalid_file)
upload l detect (some file) subdir at os fs =
    carried_out os fs (plan_upload l detect file subdir at os)

-- `UploadFromBytes`
unfoldable pub upload_from_bytes :
    LocalStorage → (Text → Text) → Text → Text → Text → Stamp → Answers → Dict Text → Reply Text
unfolding carried_out plan_upload_from_bytes
upload_from_bytes l detect content filename subdir at os fs =
    carried_out os fs (plan_upload_from_bytes l detect content filename subdir at os)

-- `GetURL`
unfoldable pub get_url : LocalStorage → Text → Text
unfolding public_url
get_url l path = public_url l.base_url path

unfoldable pub removed_at : Answers → Text → Option Text → Dict Text → Reply Unit
unfolding delete
removed_at os full none fs = (fs, if os.directory && os.remove then ok tt else err remove_failed)
removed_at os full (some c) fs =
    if os.remove then (delete full fs, ok tt) else (fs, err remove_failed)

unfoldable pub delete_at : Answers → Dict Text → Result StorageError Text → Reply Unit
unfolding removed_at lookup
delete_at os fs (err e) = (fs, err e)
delete_at os fs (ok full) = removed_at os full (lookup full fs) fs

-- `Delete`
unfoldable pub delete_file : LocalStorage → Text → Answers → Dict Text → Reply Unit
unfolding delete_at safe_join
delete_file l p os fs = delete_at os fs (safe_join l.root_abs (p ∷ []))

unfoldable pub within : Option Text → Result StorageError Text
within none = err read_too_large
within (some c) = ok c

unfoldable pub read_at : LocalStorage → Answers → Option Text → Result StorageError Text
unfolding within read_capped
read_at l os none = if os.opens && os.directory then err read_failed else err open_failed
read_at l os (some content) =
    if not os.opens
    then err open_failed
    else if os.read
    then within (read_capped l.max_read_bytes content)
    else err read_failed

-- `Get`
unfoldable pub get : LocalStorage → Text → Answers → Dict Text → Result StorageError Text
unfolding read_at safe_join lookup
get l p os fs = safe_join l.root_abs (p ∷ []) >>= λ full. read_at l os (lookup full fs)

unfoldable pub present : Bool → Option Text → Result StorageError Bool
present directory none = ok directory
present directory (some c) = ok true

unfoldable pub found : Answers → Option Text → Result StorageError Bool
unfolding present
found os o = if not os.stat then err stat_failed else present os.directory o

-- `Exists`
unfoldable pub exists : LocalStorage → Text → Answers → Dict Text → Result StorageError Bool
unfolding found safe_join lookup
exists l p os fs = safe_join l.root_abs (p ∷ []) >>= λ full. found os (lookup full fs)
