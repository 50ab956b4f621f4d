-- ===== src/Storage/Store.antt =====
-- storage/storage.go: what `LocalStorage` promises as a store of named contents.
use xlgo_core.Base.{
  ◌≡◌, ◌≢◌, ◌↔◌, ◌⊎◌, refl, [], ◌∷◌, ◌++◌, Bool, true, false, if◌then◌else◌, Result, ok, err, none,
  some, Option,
}
use xlgo_core.Base.Text.{Text, text_eq}
use xlgo_core.Base.Dict.{Dict, lookup}
use xlgo_core.Storage.{read_capped, bytes_of}
use xlgo_core.Storage.Caps.{Reads}
use xlgo_core.Storage.Paths.{StorageError, slash, safe_join, forward_slashes, join_path, ext}
use xlgo_core.Storage.Paths.Anchor.{Below}
use xlgo_core.Storage.Local.{
  LocalStorage, FileHeader, Stamp, Answers, upload, upload_from_bytes, delete_file, get, exists,
  date_path, unique_filename, or_bin,
}

-- The names that a client may use, and their contents
abbrev pub Files : Type 0
Files = Text → Option Text

abbrev pub contents : Text → Dict Text → Files
contents root fs t = lookup (root ++ slash ∷ t) fs

pub data Change : Type 0 where
  keep : Change
  put : Text → Text → Change
  gone : Text → Change

abbrev pub apply : Change → Files → Files
apply keep f t = f t
apply (put k d) f t = if text_eq k t then some d else f t
apply (gone k) f t = if text_eq k t then none else f t

-- The operations that clients call
pub data Call : Type 0 where
  uploading : Option FileHeader → Text → Stamp → Call
  uploading_bytes : Text → Text → Text → Stamp → Call
  deleting getting asking : Text → Call

pub data Answer : Type 0 where
  path : Result StorageError Text → Answer
  done : Result StorageError (Unit {0}) → Answer
  content : Result StorageError Text → Answer
  presence : Result StorageError Bool → Answer

unfoldable pub perform :
    LocalStorage → (Text → Text) → Answers → Call → Dict Text → Dict Text × Answer
unfolding upload upload_from_bytes delete_file get exists
perform l detect os (uploading file subdir at) fs =
    let r = upload l detect file subdir at os fs in (r.0, path r.1)
perform l detect os (uploading_bytes bytes filename subdir at) fs =
    let r = upload_from_bytes l detect bytes filename subdir at os fs in (r.0, path r.1)
perform l detect os (deleting p) fs = let r = delete_file l p os fs in (r.0, done r.1)
perform l detect os (getting p) fs = (fs, content (get l p os fs))
perform l detect os (asking p) fs = (fs, presence (exists l p os fs))

-- The path of a client is the one of the contents with this name.
abbrev pub Names : Text → Text → Text → Type 0
Names root p key = safe_join root (p ∷ []) ≡ ok (root ++ slash ∷ key)

-- The path that a call is about: of an upload the one it is given, before backslashes are replaced.
abbrev pub path_of : Call → Text
path_of (uploading none subdir at) = []
path_of (uploading (some file) subdir at) =
    join_path (join_path (subdir ∷ date_path at ∷ []) ∷ unique_filename at (ext file.filename) ∷ [])
path_of (uploading_bytes bytes filename subdir at) =
    join_path
      (join_path (subdir ∷ date_path at ∷ []) ∷ unique_filename at (or_bin (ext filename)) ∷ [])
path_of (deleting p) = p
path_of (getting p) = p
path_of (asking p) = p

-- The bytes that a client sends
abbrev pub sent : Call → Text
sent (uploading (some file) subdir at) = bytes_of file.content.chunks
sent (uploading_bytes bytes filename subdir at) = bytes
sent _ = []

-- Each read of what a client sends brings something.
abbrev pub Readable : Call → Type 0
Readable (uploading (some file) subdir at) = Reads file.content.chunks
Readable _ = Unit

-- What an answer says of the contents before the call and of the change.
abbrev pub Promise : LocalStorage → Answers → Call → Files → Change → Answer → Type 0
Promise l os c f change (path (ok p)) =
    (key : Text) × (p ≡ forward_slashes (path_of c))
    × Names l.root_abs (path_of c) key
    × (change ≡ put key (sent c))
Promise l os c f change (path (err e)) =
    (change ≡ keep)
    ⊎ ((key : Text) × Names l.root_abs (path_of c) key
        × (((os.remove ≡ true) × (change ≡ gone key))
            ⊎ ((d : Text) × (os.remove ≡ false) × (change ≡ put key d))))
Promise l os (deleting p) f change (done (ok _)) =
    (key : Text) × Names l.root_abs p key
    × (((f key ≢ none) × (change ≡ gone key))
        ⊎ ((f key ≡ none) × (change ≡ keep) × (os.directory ≡ true)))
Promise l os (getting p) f change (content (ok d)) =
    (key : Text) × (whole : Text) × Names l.root_abs p key
    × (f key ≡ some whole)
    × (read_capped l.max_read_bytes whole ≡ some d)
    × (change ≡ keep)
Promise l os (asking p) f change (presence (ok b)) =
    (key : Text) × Names l.root_abs p key
    × ((b ≡ true) ↔ ((f key ≢ none) ⊎ (os.directory ≡ true)))
    × (change ≡ keep)
Promise l os c f change a = change ≡ keep

-- The files after a call: the contents have changed so, and what is not below the root not at all.
abbrev pub Changed : Text → Change → Dict Text → Dict Text → Type 0
Changed root change fs fs' =
    ((t : Text) → contents root fs' t ≡ apply change (contents root fs) t)
    × ((q : Text) → ¬ Below root q → lookup q fs' ≡ lookup q fs)

pub keep-Changed : (root : Text) (fs : Dict Text) → Changed root keep fs fs
keep-Changed root fs = (λ t. refl, λ q h. refl)
