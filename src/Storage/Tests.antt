-- ===== src/Storage/Tests.antt =====
-- storage/storage.go: runs on small inputs, and the theorems applied there.
use xlgo_core.Base.{◌≡◌, refl, [], ◌∷◌, true, false, none, some, ok, err, length, ◌≤◌, ◌<◌, arith}
use xlgo_core.Base.Int.{pos}
use xlgo_core.Base.Text.{Text, codes, text_eq, contains_rune, join}
use xlgo_core.Base.Dict.{Dict}
use xlgo_core.Storage.{copy_upload, bytes_of, read_capped}
use xlgo_core.Storage.Paths.{segment, join_path, ext, safe_join, upload_too_large, path_traversal}
use xlgo_core.Storage.Paths.Clean.{IsRoot}
use xlgo_core.Storage.Paths.Anchor.{Below, safe_join-Below}
use xlgo_core.Storage.Local.{
  LocalStorage, FileHeader, Stamp, Answers, upload, get, delete_file, exists, unique_filename,
  date_path,
}
use xlgo_core.Storage.Store.{perform, uploading}
use xlgo_core.Storage.Clients.{perform_refines}
use xlgo_core.Storage.Refine.{Kept}
use xlgo_core.Storage.Caps.{copy_upload_within}
use xlgo_core.Storage.Whole.Again.{upload-get, upload_path}

abbrev storage : LocalStorage
storage = record {
  root_abs = codes "/srv";
  base_url = codes "http://h";
  policy = record { max_size_bytes = pos 4; allowed_exts = codes ".txt" ∷ []; allowed_mimes = [] };
  max_read_bytes = pos 100;
}

abbrev today : Stamp
today = record { year = 2024; month = 1; day = 2; nanos = 5; random = 171 ∷ [] }

abbrev fine : Answers
fine = record {
  mkdir = true;
  opens = true;
  create = true;
  disk = none;
  close = true;
  remove = true;
  read = true;
  stat = true;
  directory = false;
}

abbrev note : FileHeader
note = record {
  filename = codes "Note.TXT";
  size = pos 1;
  content = record { chunks = codes "ab" ∷ codes "c" ∷ []; broken = false };
}

abbrev long_note : FileHeader
long_note = record note {
  content = record { chunks = codes "ab" ∷ codes "cde" ∷ []; broken = false };
}

abbrev stored : Text
stored = codes "in/2024/01/02/5-ab.TXT"

detect : Text → Text
detect head = codes "text/plain"

storage-IsRoot : IsRoot storage.root_abs
unfolding segment contains_rune join text_eq
storage-IsRoot = (codes "srv", [], refl, ((refl, refl), tt))

-- The second upload sends more than the client declares, the third one leaves the root.
upload_tests :
    (upload storage detect (some note) (codes "in") today fine []
      ≡ ((codes "/srv/in/2024/01/02/5-ab.TXT", codes "abc") ∷ [], ok stored))
    × (upload storage detect (some long_note) (codes "in") today fine []
        ≡ ([], err upload_too_large))
    × (upload storage detect (some note) (codes "../../in") today fine []
        ≡ ([], err path_traversal))
unfolding upload
upload_tests = (refl, refl, refl)

abbrev after : Dict Text
after = (codes "/srv/in/2024/01/02/5-ab.TXT", codes "abc") ∷ []

store_tests :
    (get storage stored fine after ≡ ok (codes "abc"))
    × (exists storage (codes "x/../in/2024/01/02/5-ab.TXT") fine after ≡ ok true)
    × (exists storage (codes "in/y") fine after ≡ ok false)
    × (delete_file storage stored fine after ≡ ([], ok tt))
    × (delete_file storage (codes "..") fine after ≡ (after, err path_traversal))
unfolding get exists delete_file
store_tests = (refl, refl, refl, refl, refl)

accepted : safe_join (codes "/srv") (codes "b/../a" ∷ []) ≡ ok (codes "/srv/a")
unfolding safe_join
accepted = refl

safe_join-Below_example : Below (codes "/srv") (codes "/srv/a")
safe_join-Below_example =
    safe_join-Below (codes "/srv") (codes "b/../a" ∷ []) (codes "/srv/a") storage-IsRoot accepted

perform_refines_example :
    Kept storage fine
      (uploading (some note) (codes "in") today)
      []
      (perform storage detect fine (uploading (some note) (codes "in") today) []).0
      (perform storage detect fine (uploading (some note) (codes "in") today) []).1
perform_refines_example =
    perform_refines storage detect fine (uploading (some note) (codes "in") today) [] storage-IsRoot
      (omega arith, (omega arith, tt))

copy_upload_within_example :
    (length (copy_upload storage.policy long_note.content).written ≤ 4)
    × (length (bytes_of long_note.content.chunks) ≤ 4
        → copy_upload storage.policy long_note.content
          ≡ record { written = bytes_of long_note.content.chunks; fault = none })
    × (4 < length (bytes_of long_note.content.chunks)
        → (copy_upload storage.policy long_note.content).fault ≡ some upload_too_large)
copy_upload_within_example =
    copy_upload_within storage.policy long_note.content 3 refl (omega arith, (omega arith, tt)) refl

uploaded : upload storage detect (some note) (codes "in") today fine [] ≡ (after, ok stored)
unfolding upload
uploaded = refl

plain : contains_rune (upload_path note (codes "in") today) b'\\' ≡ false
unfolding contains_rune join_path unique_filename date_path ext
plain = refl

within_limit : read_capped (pos 100) (codes "abc") ≡ some (codes "abc")
unfolding read_capped
within_limit = refl

upload-get_example : get storage stored fine after ≡ ok (codes "abc")
upload-get_example =
    upload-get storage detect note (codes "in") today fine [] after stored fine storage-IsRoot
      (omega arith, (omega arith, tt)) uploaded plain refl refl within_limit
