-- ===== src/Storage/Clients.antt =====
-- storage/storage.go: the operations of `LocalStorage` as its clients see them.
use xlgo_core.Base.{
  ◌≡◌, ◌≢◌, ◌↔◌, ◌⊎◌, inl, inr, refl, sym, ap, ◌∙◌, [], ◌∷◌, ◌++◌, Bool, true, false, not, ◌&&◌,
  if◌then◌else◌, Result, ok, err, none, some, Option, >>=_ok, ok_inj,
}
use xlgo_core.Base.Text.{Text}
use xlgo_core.Base.Dict.{Dict, lookup, delete}
use xlgo_core.Storage.{read_capped}
use xlgo_core.Storage.Paths.{
  StorageError, slash, safe_join, remove_failed, read_failed, open_failed, stat_failed,
}
use xlgo_core.Storage.Paths.Clean.{IsRoot}
use xlgo_core.Storage.Paths.Anchor.{Below, safe_join-Below}
use xlgo_core.Storage.Local.{
  LocalStorage, Answers, Reply, present, delete_file, delete_at, removed_at, get, exists, read_at,
  found, within,
}
use xlgo_core.Storage.Store.{
  keep, gone, Call, uploading, uploading_bytes, deleting, getting, asking, done, content, presence,
  perform, Names, keep-Changed, Readable,
}
use xlgo_core.Storage.Refine.{Kept, delete-Changed}
use xlgo_core.Storage.Uploads.{upload-Kept, upload_from_bytes-Kept}

joined :
    (root p : Text)
    → IsRoot root
    → (r : Result StorageError Text) → r ≡ safe_join root (p ∷ [])
    → ((e : StorageError) × (r ≡ err e))
      ⊎ ((key : Text) × (r ≡ ok (root ++ slash ∷ key))
          × Names root p key
          × Below root (root ++ slash ∷ key))
joined root p h (err e) w = inl (e, refl)
joined root p h (ok full) w =
    let (key, e, k) = safe_join-Below root (p ∷ []) full h (sym w) in
    inr (key, ap ok e, sym w ∙ ap ok e, (key, refl, k))

some_none : (c : Text) → ◌≢◌ {A = Option Text} (some c) none
some_none c h = cc

removed_at-Kept :
    (l : LocalStorage) (os : Answers) (p key : Text) (fs : Dict Text) (o : Option Text)
    → o ≡ lookup (l.root_abs ++ slash ∷ key) fs
    → Names l.root_abs p key
    → Below l.root_abs (l.root_abs ++ slash ∷ key)
    → Kept l os
        (deleting p)
        fs
        (removed_at os (l.root_abs ++ slash ∷ key) o fs).0
        (done (removed_at os (l.root_abs ++ slash ∷ key) o fs).1)
unfolding removed_at
removed_at-Kept l os p key fs none w n b = dir os.directory os.remove refl
  where
    dir :
        (d r : Bool)
        → d ≡ os.directory
        → Kept l os (deleting p) fs fs (done (if d && r then ok tt else err remove_failed))
    dir true true e = (keep, keep-Changed l.root_abs fs, (key, n, inr (sym w, refl, sym e)))
    dir true false e = (keep, keep-Changed l.root_abs fs, refl)
    dir false r e = (keep, keep-Changed l.root_abs fs, refl)
removed_at-Kept l os p key fs (some c) w n b = file os.remove
  where
    full : Text
    full = l.root_abs ++ slash ∷ key

    file :
        (r : Bool)
        → Kept l os
            (deleting p)
            fs
            (if◌then◌else◌ {A = Reply Unit} r (delete full fs, ok tt) (fs, err remove_failed)).0
            (done
              (if◌then◌else◌ {A = Reply Unit} r (delete full fs, ok tt) (fs, err remove_failed)).1)
    file true = (
      gone key,
      delete-Changed l.root_abs full key fs b refl,
      (key, n, inl (λ e. some_none c (w ∙ e), refl)),
    )
    file false = (keep, keep-Changed l.root_abs fs, refl)

delete_file-Kept :
    (l : LocalStorage) (os : Answers) (p : Text) (fs : Dict Text)
    → IsRoot l.root_abs
    → Kept l os (deleting p) fs (delete_file l p os fs).0 (done (delete_file l p os fs).1)
unfolding delete_file delete_at
delete_file-Kept l os p fs h = elim (joined l.root_abs p h (safe_join l.root_abs (p ∷ [])) refl) [
  | inl (e, w) ↦ rw w (keep, keep-Changed l.root_abs fs, refl)
  | inr (key, w, n, b) ↦
      rw w (removed_at-Kept l os p key fs (lookup (l.root_abs ++ slash ∷ key) fs) refl n b)
]

within_ok : (o : Option Text) (d : Text) → within o ≡ ok d → o ≡ some d
unfolding within
within_ok none d h = absurd (cc)
within_ok (some c) d h = ap some (ok_inj {E = StorageError} c d h)

read_at_ok :
    (l : LocalStorage) (os : Answers) (o : Option Text) (d : Text)
    → read_at l os o ≡ ok d
    → (whole : Text) × (o ≡ some whole) × (read_capped l.max_read_bytes whole ≡ some d)
unfolding read_at
read_at_ok l os none d h = absurd (no_file (os.opens && os.directory) h)
  where
    no_file : (b : Bool) → (if b then err read_failed else err open_failed) ≢ ok d
    no_file true h = cc
    no_file false h = cc
read_at_ok l os (some whole) d h =
    (whole, refl, within_ok (read_capped l.max_read_bytes whole) d (reads os.opens os.read h))
  where
    got : Result StorageError Text
    got = within (read_capped l.max_read_bytes whole)

    reads :
        (a b : Bool)
        → (if not a then err open_failed else if b then got else err read_failed) ≡ ok d
        → got ≡ ok d
    reads false b h = absurd (cc)
    reads true true h = h
    reads true false h = absurd (cc)

get-Kept :
    (l : LocalStorage) (os : Answers) (p : Text) (fs : Dict Text)
    → IsRoot l.root_abs
    → Kept l os (getting p) fs fs (content (get l p os fs))
unfolding get
get-Kept l os p fs h = answered (get l p os fs) refl
  where
    answered :
        (r : Result StorageError Text) → r ≡ get l p os fs → Kept l os (getting p) fs fs (content r)
    answered (err e) w = (keep, keep-Changed l.root_abs fs, refl)
    answered (ok d) w =
        let (full, a, r) =
          >>=_ok (safe_join l.root_abs (p ∷ [])) (λ full. read_at l os (lookup full fs)) d
            (sym w) in
        let (whole, f, c) = read_at_ok l os (lookup full fs) d r in
        let (key, e, b) = safe_join-Below l.root_abs (p ∷ []) full h a in
        (
          keep,
          keep-Changed l.root_abs fs,
          (key, whole, a ∙ ap ok e, ap (λ z. lookup z fs) (sym e) ∙ f, c, refl),
        )

found_ok :
    (os : Answers) (o : Option Text) (b : Bool)
    → found os o ≡ ok b
    → (b ≡ true) ↔ ((o ≢ none) ⊎ (os.directory ≡ true))
unfolding found present
found_ok os o b h = stat os.stat h
  where
    here :
        (o : Option Text) (d : Bool) → present d o ≡ ok b → (b ≡ true) ↔ ((o ≢ none) ⊎ (d ≡ true))
    here none d h = (
      λ t. inr (ok_inj {E = StorageError} d b h ∙ t),
      λ x. elim x [ inl ne ↦ absurd (ne refl) | inr t ↦ sym (ok_inj {E = StorageError} d b h) ∙ t ],
    )
    here (some c) d h = (λ t. inl (some_none c), λ x. sym (ok_inj {E = StorageError} true b h))

    stat :
        (s : Bool)
        → (if not s then err stat_failed else present os.directory o) ≡ ok b
        → (b ≡ true) ↔ ((o ≢ none) ⊎ (os.directory ≡ true))
    stat false h = absurd (cc)
    stat true h = here o os.directory h

exists-Kept :
    (l : LocalStorage) (os : Answers) (p : Text) (fs : Dict Text)
    → IsRoot l.root_abs
    → Kept l os (asking p) fs fs (presence (exists l p os fs))
unfolding exists
exists-Kept l os p fs h = answered (exists l p os fs) refl
  where
    answered :
        (r : Result StorageError Bool)
        → r ≡ exists l p os fs
        → Kept l os (asking p) fs fs (presence r)
    answered (err e) w = (keep, keep-Changed l.root_abs fs, refl)
    answered (ok d) w =
        let (full, a, r) =
          >>=_ok (safe_join l.root_abs (p ∷ [])) (λ full. found os (lookup full fs)) d (sym w) in
        let (key, e, b) = safe_join-Below l.root_abs (p ∷ []) full h a in
        (
          keep,
          keep-Changed l.root_abs fs,
          (key, a ∙ ap ok e, rw e at (found_ok os (lookup full fs) d r), refl),
        )

-- Whatever a client calls and however the system answers, where the root is a proper one and each read
-- of what the client sends brings something: the contents change by one name at most and nothing
-- outside the root changes; an upload that ends well answers with its path, backslashes replaced by
-- slashes, and has put all the bytes sent under the name that the path stood for before; one that
-- fails has changed nothing, taken the file under that name away, or, where it could not be removed,
-- left a file there; a deletion that ends well took the contents of its path or a directory, and a read
-- gives the contents of its path under the limit.
pub perform_refines :
    (l : LocalStorage) (detect : Text → Text) (os : Answers) (c : Call) (fs : Dict Text)
    → IsRoot l.root_abs
    → Readable c
    → Kept l os c fs (perform l detect os c fs).0 (perform l detect os c fs).1
unfolding perform
perform_refines l detect os (uploading file subdir at) fs h k =
    upload-Kept l detect os file subdir at fs h k
perform_refines l detect os (uploading_bytes bytes filename subdir at) fs h k =
    upload_from_bytes-Kept l detect os bytes filename subdir at fs h
perform_refines l detect os (deleting p) fs h k = delete_file-Kept l os p fs h
perform_refines l detect os (getting p) fs h k = get-Kept l os p fs h
perform_refines l detect os (asking p) fs h k = exists-Kept l os p fs h
