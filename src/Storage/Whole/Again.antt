-- ===== src/Storage/Whole/Again.antt =====
-- storage/storage.go: `Upload`, and `Get` of the path that it answers with.
use xlgo_core.Base.{
  ◌≡◌, refl, sym, ap, ◌∙◌, [], ◌∷◌, Bool, true, false, not, ◌||◌, if◌then◌else◌, Bool-cases, inl,
  inr, Result, ok, err, none, some, Option, ok_inj, ◌==◌,
}
use xlgo_core.Base.Text.{Text, contains_rune, text_eq_refl}
use xlgo_core.Base.Dict.{Dict, lookup, insert, lookup-insert}
use xlgo_core.Storage.{Copied, bytes_of, sniff_upload_mime, read_capped}
use xlgo_core.Storage.Caps.{Reads}
use xlgo_core.Storage.Whole.{sniff_for-same, copy_upload-none}
use xlgo_core.Storage.Paths.{
  StorageError, safe_join, join_path, ext, forward_slashes, create_failed,
}
use xlgo_core.Storage.Paths.Clean.{IsRoot}
use xlgo_core.Storage.Place.{place_ok, place_path, ext-Slashless}
use xlgo_core.Storage.Uploads.{plan_upload_ok, on_disk-none, closed_none}
use xlgo_core.Storage.Local.{
  LocalStorage, FileHeader, Stamp, Answers, Plan, Reply, destination, file_path, settle, closed,
  on_disk, write_file, carried_out, plan_upload, upload, get, read_at, within, date_path,
  unique_filename,
}

forward_slashes_free : (s : Text) → contains_rune s b'\\' ≡ false → forward_slashes s ≡ s
unfolding forward_slashes contains_rune
forward_slashes_free [] h = refl
forward_slashes_free (c ∷ s) h = elim (Bool-cases (c == b'\\')) [
  | inl same ↦ absurd (cc (rw same at h))
  | inr other ↦
      rw (forward_slashes, other)
        (ap (λ z. c ∷ z) (forward_slashes_free s (rw (contains_rune, other) at h)))
]

settle_ok :
    (b : Bool) (dst p d q : Text) (o : Option StorageError) (fs fs' : Dict Text)
    → settle b dst p d o fs ≡ (fs', ok q)
    → (o ≡ none) × (fs' ≡ insert dst d fs) × (q ≡ p)
unfolding settle
settle_ok b dst p d q none fs fs' h =
    (refl, sym (ap (λ z. z.0) h), sym (ok_inj {E = StorageError} p q (ap (λ z. z.1) h)))
settle_ok b dst p d q (some e) fs fs' h = absurd (err_ok (ap (λ z. z.1) h))
  where
    err_ok : ◌≡◌ {A = Result StorageError Text} (err e) (ok q) → ⊥
    err_ok h = cc

write_file_ok :
    (os : Answers) (fs fs' : Dict Text) (p : Plan) (q : Text)
    → write_file os fs p ≡ (fs', ok q)
    → (contains_rune (destination p.target) 0 ≡ false)
      × (p.copied.fault ≡ none)
      × (fs' ≡ insert (destination p.target) p.copied.written fs)
      × (q ≡ forward_slashes (file_path p.target))
unfolding write_file
write_file_ok os fs fs' p q h = go (not os.create) (contains_rune (destination p.target) 0) h
  where
    dst : Text
    dst = destination p.target

    c : Copied
    c = on_disk os.disk p.copied

    ending : Reply Text
    ending =
        settle os.remove dst (forward_slashes (file_path p.target)) c.written
          (closed os.close c.fault) fs

    err_ok : ◌≡◌ {A = Result StorageError Text} (err create_failed) (ok q) → ⊥
    err_ok h = cc

    go :
        (a b : Bool)
        → (if a || b then (fs, err create_failed) else ending) ≡ (fs', ok q)
        → (b ≡ false)
          × (p.copied.fault ≡ none)
          × (fs' ≡ insert dst p.copied.written fs)
          × (q ≡ forward_slashes (file_path p.target))
    go true b h = absurd (err_ok (ap (λ z. z.1) h))
    go false true h = absurd (err_ok (ap (λ z. z.1) h))
    go false false h =
        let (f, e, s) =
          settle_ok os.remove dst (forward_slashes (file_path p.target)) c.written q
            (closed os.close c.fault) fs fs' h in
        let none_left = closed_none os.close c.fault f in
        let whole = on_disk-none os.disk p.copied none_left in
        (
          refl,
          sym (ap (λ z. z.fault) whole) ∙ none_left,
          e ∙ ap (λ z. insert dst z.written fs) whole,
          s,
        )

carried_out_ok :
    (os : Answers) (fs fs' : Dict Text) (r : Result StorageError Plan) (q : Text)
    → carried_out os fs r ≡ (fs', ok q)
    → (p : Plan) × (r ≡ ok p) × (write_file os fs p ≡ (fs', ok q))
unfolding carried_out
carried_out_ok os fs fs' (err e) q h = absurd (err_ok (ap (λ z. z.1) h))
  where
    err_ok : ◌≡◌ {A = Result StorageError Text} (err e) (ok q) → ⊥
    err_ok h = cc
carried_out_ok os fs fs' (ok p) q h = (p, refl, h)

-- The path of an upload before backslashes are replaced
abbrev pub upload_path : FileHeader → Text → Stamp → Text
upload_path file subdir at =
    join_path (join_path (subdir ∷ date_path at ∷ []) ∷ unique_filename at (ext file.filename) ∷ [])

get_known :
    (l : LocalStorage) (q full d : Text) (os : Answers) (fs : Dict Text)
    → safe_join l.root_abs (q ∷ []) ≡ ok full
    → lookup full fs ≡ some d
    → os.opens ≡ true
    → os.read ≡ true
    → read_capped l.max_read_bytes d ≡ some d
    → get l q os fs ≡ ok d
unfolding get read_at within
get_known l q full d os fs a f o r c = rw (get, read_at, within, a, f, o, r, c) refl

-- An upload from a source whose reads bring something, under a proper root, that ends well and whose
-- path needs no backslash replaced: `Get` of the path that it answers with, on the files that it leaves,
-- gives all the bytes of the source, where the limit on reads lets so many through and the file opens
-- and is read.
pub upload-get :
    (l : LocalStorage) (detect : Text → Text) (file : FileHeader) (subdir : Text) (at : Stamp)
    (os : Answers) (fs fs' : Dict Text) (q : Text) (later : Answers)
    → IsRoot l.root_abs
    → Reads file.content.chunks
    → upload l detect (some file) subdir at os fs ≡ (fs', ok q)
    → contains_rune (upload_path file subdir at) b'\\' ≡ false
    → later.opens ≡ true
    → later.read ≡ true
    → read_capped l.max_read_bytes (bytes_of file.content.chunks)
      ≡ some (bytes_of file.content.chunks)
    → get l q later fs' ≡ ok (bytes_of file.content.chunks)
unfolding upload sniff_upload_mime
upload-get l detect file subdir at os fs fs' q later root reads h plain o r cap =
    let (p, planned, w) = carried_out_ok os fs fs' (plan_upload l detect file subdir at os) q h in
    let (nul, fault, ins, answered) = write_file_ok os fs fs' p q w in
    let (placed, src, sn, cp) = plan_upload_ok l detect file subdir at os p planned in
    let (_, names) =
      place_ok l subdir (ext file.filename) at os p.target root (ext-Slashless file.filename) placed
        nul in
    let (same, more) = sniff_for-same detect l.policy.allowed_mimes file.content src reads sn in
    let bytes : p.copied.written ≡ bytes_of file.content.chunks =
      ap (λ z. z.written) cp
      ∙ copy_upload-none l.policy src more (ap (λ z. z.fault) (sym cp) ∙ fault)
      ∙ same in
    let where_from = place_path l subdir (ext file.filename) at os p.target placed in
    let path : q ≡ file_path p.target =
      answered
      ∙ forward_slashes_free (file_path p.target)
          (ap (λ z. contains_rune z b'\\') where_from ∙ plain) in
    let there : lookup (destination p.target) fs' ≡ some (bytes_of file.content.chunks) =
      ap (lookup (destination p.target)) ins
      ∙ lookup-insert (destination p.target) (destination p.target) p.copied.written fs
      ∙ ap (λ b. if b then some p.copied.written else lookup (destination p.target) fs)
          (text_eq_refl (destination p.target))
      ∙ ap some bytes in
    get_known l q (destination p.target) (bytes_of file.content.chunks) later fs'
      (ap (λ z. safe_join l.root_abs (z ∷ [])) path ∙ names) there o r cap
