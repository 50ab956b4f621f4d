-- ===== src/Storage/Uploads.antt =====
-- storage/storage.go: that the uploads of `LocalStorage` keep to what the store promises.
use xlgo_core.Base.{
  ◌≡◌, inl, inr, refl, sym, ap, ◌∙◌, [], ◌∷◌, ◌++◌, Bool, true, false, not, ◌||◌, if◌then◌else◌,
  arith, Bool-cases, Result, ok, err, none, some, Option, ◌>>=◌, >>=_ok, ok_inj, length, ℕ, take,
  ltb,
}
use xlgo_core.Base.Int.{pos}
use xlgo_core.Base.Text.{Text, contains_rune}
use xlgo_core.Base.Dict.{Dict}
use xlgo_core.Storage.{
  Copied, validate_upload_size, validate_upload_ext, sniff_upload_mime, copy_upload, copy_all,
  Source, bytes_of,
}
use xlgo_core.Storage.Paths.{
  StorageError, slash, safe_join, forward_slashes, ext, create_failed, invalid_file, open_failed,
  save_failed,
}
use mathlib.Core.List.{append-nil}
use xlgo_core.Storage.Caps.{Reads}
use xlgo_core.Storage.Whole.{sniff_for-same, copy_upload-none}
use xlgo_core.Storage.Paths.Clean.{IsRoot}
use xlgo_core.Storage.Paths.Anchor.{Below}
use xlgo_core.Storage.Place.{place_ok, place_path, ext-Slashless, or_bin-Slashless}
use xlgo_core.Storage.Local.{
  LocalStorage, FileHeader, Stamp, Answers, Place, Plan, destination, file_path, settle, closed,
  on_disk, write_file, carried_out, or_bin, from_bytes, plan_upload, plan_upload_from_bytes, upload,
  upload_from_bytes, checked, place,
}
use xlgo_core.Storage.Store.{
  keep, put, gone, Call, path, keep-Changed, uploading, uploading_bytes, path_of, sent, Readable,
}
use xlgo_core.Storage.Refine.{insert-Changed, delete-Changed, Kept}

pub on_disk-none :
    (room : Option ℕ) (c : Copied) → (on_disk room c).fault ≡ none → on_disk room c ≡ c
unfolding on_disk
on_disk-none none c h = refl
on_disk-none (some room) c h = go (ltb room (length c.written)) h
  where
    short : Copied
    short = record { written = take room c.written; fault = some save_failed }

    go :
        (b : Bool)
        → (if◌then◌else◌ {A = Copied} b short c).fault ≡ none
        → (if b then short else c) ≡ c
    go true h = absurd (cc)
    go false h = refl

pub closed_none : (b : Bool) (o : Option StorageError) → closed b o ≡ none → o ≡ none
unfolding closed
closed_none b (some e) h = absurd (cc)
closed_none b none h = refl

settle-Kept :
    (l : LocalStorage) (os : Answers) (c : Call) (dst key d : Text) (fault : Option StorageError)
    (fs : Dict Text)
    → Below l.root_abs dst
    → dst ≡ l.root_abs ++ slash ∷ key
    → safe_join l.root_abs (path_of c ∷ []) ≡ ok dst
    → (fault ≡ none → d ≡ sent c)
    → (r : Dict Text × Result StorageError Text)
    → r ≡ settle os.remove dst (forward_slashes (path_of c)) d fault fs
    → Kept l os c fs r.0 (path r.1)
unfolding settle
settle-Kept l os c dst key d none fs b e a whole r w = rw w (
  put key d,
  insert-Changed l.root_abs dst key d fs b e,
  (key, refl, a ∙ ap ok e, ap (put key) (whole refl)),
)
settle-Kept l os c dst key d (some x) fs b e a whole r w = elim (Bool-cases os.remove) [
  | inl removed ↦
      rw (w, removed)
        (
          gone key,
          delete-Changed l.root_abs dst key fs b e,
          inr (key, a ∙ ap ok e, inl (refl, refl)),
        )
  | inr left ↦
      rw (w, left)
        (
          put key d,
          insert-Changed l.root_abs dst key d fs b e,
          inr (key, a ∙ ap ok e, inr (d, refl, refl)),
        )
]

refused-Kept :
    (l : LocalStorage) (os : Answers) (c : Call) (fs : Dict Text) (e : StorageError)
    → Kept l os c fs fs (path (err e))
refused-Kept l os c fs e = (keep, keep-Changed l.root_abs fs, inl refl)

-- Where a plan writes, and what it writes if nothing fails
abbrev pub Meant : LocalStorage → Call → Plan → Type 0
Meant l c p =
    (file_path p.target ≡ path_of c)
    × (p.copied.fault ≡ none → p.copied.written ≡ sent c)
    × (contains_rune (destination p.target) 0 ≡ false
        → Below l.root_abs (destination p.target)
          × (safe_join l.root_abs (file_path p.target ∷ []) ≡ ok (destination p.target)))

-- A file that is written to its end has the bytes of the copy.
written_whole :
    (os : Answers) (copied : Copied) (bytes : Text)
    → (copied.fault ≡ none → copied.written ≡ bytes)
    → closed os.close (on_disk os.disk copied).fault ≡ none
    → (on_disk os.disk copied).written ≡ bytes
written_whole os copied bytes whole h =
    let fine = closed_none os.close (on_disk os.disk copied).fault h in
    let same = on_disk-none os.disk copied fine in
    ap (λ z. z.written) same ∙ whole (ap (λ z. z.fault) (sym same) ∙ fine)

write_file-Kept :
    (l : LocalStorage) (os : Answers) (c : Call) (fs : Dict Text) (p : Plan)
    → Meant l c p
    → Kept l os c fs (write_file os fs p).0 (path (write_file os fs p).1)
unfolding write_file
write_file-Kept l os c fs p (named, whole, h) =
    go (not os.create) (contains_rune (destination p.target) 0) h
  where
    dst : Text
    dst = destination p.target

    copied : Copied
    copied = on_disk os.disk p.copied

    ending : Dict Text × Result StorageError Text
    ending =
        settle os.remove dst (forward_slashes (file_path p.target)) copied.written
          (closed os.close copied.fault) fs

    go :
        (a b : Bool)
        → (b ≡ false
            → Below l.root_abs dst × (safe_join l.root_abs (file_path p.target ∷ []) ≡ ok dst))
        → Kept l os c fs
            (if a || b then (fs, err create_failed) else ending).0
            (path (if a || b then (fs, err create_failed) else ending).1)
    go true b h = refused-Kept l os c fs create_failed
    go false true h = refused-Kept l os c fs create_failed
    go false false h =
        let ((key, e, names), a) = h refl in
        settle-Kept l os c dst key copied.written (closed os.close copied.fault) fs (key, e, names)
          e (ap (λ z. safe_join l.root_abs (z ∷ [])) (sym named) ∙ a)
          (written_whole os p.copied (sent c) whole) ending
          (ap
            (λ z.
              settle os.remove dst (forward_slashes z) copied.written (closed os.close copied.fault)
                fs)
            named)

pub checked_ok :
    (a b : Option StorageError) (r : Result StorageError Place) (t : Place)
    → checked a b r ≡ ok t
    → r ≡ ok t
unfolding checked
checked_ok (some x) b r t h = absurd (cc)
checked_ok none (some x) r t h = absurd (cc)
checked_ok none none r t h = h

plan_target :
    (r : Result StorageError Source) (t : Place) (copy : Source → Copied) (p : Plan)
    → (r >>= λ src. ok (record { target = t; copied = copy src })) ≡ ok p
    → (src : Source) × (r ≡ ok src) × (p ≡ record { target = t; copied = copy src })
plan_target (err e) t copy p h = absurd (cc)
plan_target (ok src) t copy p h = (src, refl, sym (ok_inj {E = StorageError} _ p h))

opened_ok :
    (b : Bool) (r : Result StorageError Source) (src : Source)
    → (if b then r else err open_failed) ≡ ok src
    → r ≡ ok src
opened_ok true r src h = h
opened_ok false r src h = absurd (cc)

pub plan_upload_ok :
    (l : LocalStorage) (detect : Text → Text) (file : FileHeader) (subdir : Text) (at : Stamp)
    (os : Answers) (p : Plan)
    → plan_upload l detect file subdir at os ≡ ok p
    → (place l subdir at (ext file.filename) os ≡ ok p.target)
      × (src : Source) × (sniff_upload_mime detect l.policy file.content ≡ ok src)
      × (p.copied ≡ copy_upload l.policy src)
unfolding plan_upload
plan_upload_ok l detect file subdir at os p h =
    let early = validate_upload_size l.policy file.size in
    let extension = validate_upload_ext l.policy file.filename in
    let target = place l subdir at (ext file.filename) os in
    let sniffed = sniff_upload_mime detect l.policy file.content in
    let (t, c, rest) = >>=_ok (checked early extension target) _ p h in
    let (src, r, e) =
      plan_target (if os.opens then sniffed else err open_failed) t (copy_upload l.policy) p rest in
    (
      checked_ok early extension target t c ∙ ap ok (ap (λ z. z.target) (sym e)),
      src,
      opened_ok os.opens sniffed src r,
      ap (λ z. z.copied) e,
    )

pub plan_upload_from_bytes_ok :
    (l : LocalStorage) (detect : Text → Text) (bytes filename subdir : Text) (at : Stamp)
    (os : Answers) (p : Plan)
    → plan_upload_from_bytes l detect bytes filename subdir at os ≡ ok p
    → (place l subdir at (or_bin (ext filename)) os ≡ ok p.target)
      × (src : Source) × (sniff_upload_mime detect l.policy (from_bytes bytes) ≡ ok src)
      × (p.copied ≡ copy_all src)
unfolding plan_upload_from_bytes
plan_upload_from_bytes_ok l detect bytes filename subdir at os p h =
    let early = validate_upload_size l.policy (pos (length bytes)) in
    let extension = validate_upload_ext l.policy filename in
    let target = place l subdir at (or_bin (ext filename)) os in
    let sniffed = sniff_upload_mime detect l.policy (from_bytes bytes) in
    let (t, c, rest) = >>=_ok (checked early extension target) _ p h in
    let (src, r, e) = plan_target sniffed t copy_all p rest in
    (
      checked_ok early extension target t c ∙ ap ok (ap (λ z. z.target) (sym e)),
      src,
      r,
      ap (λ z. z.copied) e,
    )

carried_out-Kept :
    (l : LocalStorage) (os : Answers) (c : Call) (fs : Dict Text) (r : Result StorageError Plan)
    → ((p : Plan) → r ≡ ok p → Meant l c p)
    → Kept l os c fs (carried_out os fs r).0 (path (carried_out os fs r).1)
unfolding carried_out
carried_out-Kept l os c fs (err e) h = refused-Kept l os c fs e
carried_out-Kept l os c fs (ok p) h = write_file-Kept l os c fs p (h p refl)

pub upload-Kept :
    (l : LocalStorage) (detect : Text → Text) (os : Answers) (file : Option FileHeader)
    (subdir : Text) (at : Stamp) (fs : Dict Text)
    → IsRoot l.root_abs
    → Readable (uploading file subdir at)
    → Kept l os
        (uploading file subdir at)
        fs
        (upload l detect file subdir at os fs).0
        (path (upload l detect file subdir at os fs).1)
unfolding upload sniff_upload_mime
upload-Kept l detect os none subdir at fs root reads =
    refused-Kept l os (uploading none subdir at) fs invalid_file
upload-Kept l detect os (some file) subdir at fs root reads =
    carried_out-Kept l os (uploading (some file) subdir at) fs
      (plan_upload l detect file subdir at os)
      (λ p e.
        let (placed, src, sn, cp) = plan_upload_ok l detect file subdir at os p e in
        let (same, more) = sniff_for-same detect l.policy.allowed_mimes file.content src reads sn in
        (
          place_path l subdir (ext file.filename) at os p.target placed,
          λ fine.
              ap (λ z. z.written) cp
              ∙ copy_upload-none l.policy src more (ap (λ z. z.fault) (sym cp) ∙ fine)
              ∙ same,
          place_ok l subdir (ext file.filename) at os p.target root (ext-Slashless file.filename)
              placed,
        ))

from_bytes_lem :
    (bytes : Text) → (bytes_of (from_bytes bytes).chunks ≡ bytes) × Reads (from_bytes bytes).chunks
unfolding from_bytes
from_bytes_lem [] = (refl, tt)
from_bytes_lem (c ∷ s) = (append-nil (c ∷ s), (omega arith, tt))

copy_all-written : (src : Source) → (copy_all src).written ≡ bytes_of src.chunks
unfolding copy_all
copy_all-written src = refl

pub upload_from_bytes-Kept :
    (l : LocalStorage) (detect : Text → Text) (os : Answers) (bytes filename subdir : Text)
    (at : Stamp) (fs : Dict Text)
    → IsRoot l.root_abs
    → Kept l os
        (uploading_bytes bytes filename subdir at)
        fs
        (upload_from_bytes l detect bytes filename subdir at os fs).0
        (path (upload_from_bytes l detect bytes filename subdir at os fs).1)
unfolding upload_from_bytes sniff_upload_mime
upload_from_bytes-Kept l detect os bytes filename subdir at fs root =
    carried_out-Kept l os (uploading_bytes bytes filename subdir at) fs
      (plan_upload_from_bytes l detect bytes filename subdir at os)
      (λ p e.
        let (placed, src, sn, cp) =
          plan_upload_from_bytes_ok l detect bytes filename subdir at os p e in
        let (all, reads) = from_bytes_lem bytes in
        let (same, _) =
          sniff_for-same detect l.policy.allowed_mimes (from_bytes bytes) src reads sn in
        (
          place_path l subdir (or_bin (ext filename)) at os p.target placed,
          λ fine. ap (λ z. z.written) cp ∙ copy_all-written src ∙ same ∙ all,
          place_ok l subdir (or_bin (ext filename)) at os p.target root
              (or_bin-Slashless (ext filename) (ext-Slashless filename)) placed,
        ))
