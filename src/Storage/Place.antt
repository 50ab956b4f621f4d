-- ===== src/Storage/Place.antt =====
-- storage/storage.go: where an upload is written, and that its path names that place.
use mathlib.Core.List.{reverse}
use xlgo_core.Base.{
  ℕ, ◌/◌, ◌%◌, ◌≡◌, refl, sym, ap, ap₂, subst, ◌∙◌, List, [], ◌∷◌, ◌++◌, Bool, true, false, ◌||◌,
  ◌==◌, if◌then◌else◌, All, arith, inl, inr, Bool-cases, Result, ok, err, none, some, Option,
  >>=_ok, ok_inj,
}
use xlgo_core.Base.Text.{Text, text_eq, contains_rune, has_prefix, split_on, join}
use xlgo_core.Base.Text.Laws.{split_on_none, contains_rune-append}
use xlgo_core.Base.Text.Split.{split_on-All}
use xlgo_core.Base.Atoi.{is_digit}
use xlgo_core.Base.Decimal.{decimal, decimal-All, digits-without}
use xlgo_core.Storage.Paths.{
  slash, segment, name, resolve, relative, clean, join_path, ext, ext_from, safe_join, is_abs,
  refused_part, StorageError, path_traversal, invalid_path,
}
use xlgo_core.Storage.Paths.Clean.{IsName, IsRoot}
use xlgo_core.Storage.Paths.Anchor.{Below, safe_join-Below}
use xlgo_core.Storage.Paths.Relative.{
  Stack, resolve-Stack, join_path_names, join_path-relative, relative_last,
}
use xlgo_core.Storage.Paths.Accept.{safe_join-again, Below-IsRoot}
use xlgo_core.Storage.Local.{
  LocalStorage, Stamp, Answers, Place, hex_digit, hex, unique_filename, date_path, made, place,
  or_bin, file_path, destination,
}

abbrev Slashless : Text → Type 0
Slashless s = contains_rune s slash ≡ false

ext_from-Slashless : (acc s : Text) → Slashless acc → Slashless (ext_from acc s)
unfolding ext_from contains_rune
ext_from-Slashless acc [] h = refl
ext_from-Slashless acc (c ∷ s) h = elim (Bool-cases (c == slash)) [
  | inl same ↦ rw (ext_from, same) refl
  | inr other ↦ elim (Bool-cases (c == b'.')) [
    | inl point ↦ rw (ext_from, other, point) (rw (contains_rune, other) h)
    | inr letter ↦
        rw (ext_from, other, letter) (ext_from-Slashless (c ∷ acc) s (rw (contains_rune, other) h))
  ]
]

pub ext-Slashless : (filename : Text) → Slashless (ext filename)
unfolding ext contains_rune
ext-Slashless filename = ext_from-Slashless [] (reverse filename) refl

pub or_bin-Slashless : (s : Text) → Slashless s → Slashless (or_bin s)
unfolding or_bin contains_rune
or_bin-Slashless [] h = refl
or_bin-Slashless (c ∷ s) h = h

hex_digit_other : (d : ℕ) → (hex_digit d == slash) ≡ false
unfolding hex_digit
hex_digit_other d = ground arith

append-Slashless : (s t : Text) → Slashless s → Slashless t → Slashless (s ++ t)
append-Slashless s t h k = contains_rune-append s t slash ∙ ap₂ (λ a b. a || b) h k

hex-Slashless : (bs : List ℕ) → Slashless (hex bs)
unfolding hex contains_rune
hex-Slashless [] = refl
hex-Slashless (b ∷ bs) =
    rw
      (
        hex,
        contains_rune,
        hex_digit_other (b / 16 % 16),
        hex_digit_other (b % 16),
        hex-Slashless bs,
      )
      refl

not_dot : (c : ℕ) (s : Text) → (c == b'.') ≡ false → segment (c ∷ s) ≡ name
unfolding segment text_eq
not_dot c s h = rw (segment, text_eq, h) refl

digit_not_dot : (c : ℕ) → is_digit c ≡ true → (c == b'.') ≡ false
unfolding is_digit
digit_not_dot c h = ground arith

dashed_name : (s t : Text) → All (λ c. is_digit c ≡ true) s → segment (s ++ b'-' ∷ t) ≡ name
dashed_name [] t h = not_dot b'-' t refl
dashed_name (c ∷ s) t (d, h) = not_dot c (s ++ b'-' ∷ t) (digit_not_dot c d)

pub unique_filename-IsName :
    (at : Stamp) (extension : Text) → Slashless extension → IsName (unique_filename at extension)
unfolding unique_filename contains_rune is_digit
unique_filename-IsName at extension h = (
  dashed_name (decimal at.nanos) (hex at.random ++ extension) (decimal-All at.nanos),
  append-Slashless (decimal at.nanos) (b'-' ∷ (hex at.random ++ extension))
      (digits-without slash (decimal at.nanos) refl (decimal-All at.nanos))
      (append-Slashless (hex at.random) extension (hex-Slashless at.random) h),
)

not_empty : (s t : Text) (c : ℕ) → (a : ℕ) × (r : Text) × (s ++ c ∷ t ≡ a ∷ r)
not_empty [] t c = (c, t, refl)
not_empty (a ∷ s) t c = (a, s ++ c ∷ t, refl)

join_path-clean :
    (subdir : Text) (p : Text)
    → ((a : ℕ) × (r : Text) × (p ≡ a ∷ r))
    → (y : Text) × (join_path (subdir ∷ p ∷ []) ≡ clean y)
unfolding join_path
join_path-clean [] p (a, r, e) = (a ∷ r, ap (λ z. join_path (z ∷ [])) e)
join_path-clean (c ∷ s) p _ = (join (slash ∷ []) ((c ∷ s) ∷ p ∷ []), refl)

rooted_clean : (c : ℕ) (y : Text) → (c == slash) ≡ true → is_abs (clean (c ∷ y)) ≡ true
unfolding clean is_abs has_prefix
rooted_clean c y h = rw (clean, h) refl

clean-Stack :
    (y : Text) → is_abs (clean y) ≡ false → (acc : List Text) × (clean y ≡ relative acc) × Stack acc
unfolding clean relative
clean-Stack [] h = ([], refl, tt)
clean-Stack (c ∷ y) h = elim (Bool-cases (c == slash)) [
  | inl same ↦ absurd (cc (rw (rooted_clean c y same) at h))
  | inr other ↦ (
    resolve false [] (split_on slash (c ∷ y)),
    rw (clean, other) refl,
    resolve-Stack (split_on slash (c ∷ y)) [] (split_on-All slash (c ∷ y)) tt,
  )
]

refused_none :
    (p : Text) → refused_part (p ∷ []) ≡ none → (is_abs p ≡ false) × (contains_rune p 0 ≡ false)
unfolding refused_part
refused_none p h = go (is_abs p) (contains_rune p 0) h
  where
    go :
        (a b : Bool)
        → (if a then some path_traversal else if b then some invalid_path else none) ≡ none
        → (a ≡ false) × (b ≡ false)
    go true b h = absurd (cc)
    go false true h = absurd (cc)
    go false false h = (refl, refl)

safe_join_part :
    (root p full : Text)
    → safe_join root (p ∷ []) ≡ ok full
    → (is_abs p ≡ false) × (contains_rune p 0 ≡ false)
unfolding safe_join
safe_join_part [] p full h = absurd (cc)
safe_join_part (c ∷ root) p full h = refused_none p (fine (refused_part (p ∷ [])) _ h)
  where
    fine :
        (o : Option StorageError) (r : Result StorageError Text)
        → (elim o [ some e ↦ err e | none ↦ r ]) ≡ ok full
        → o ≡ none
    fine none r h = refl
    fine (some e) r h = absurd (cc)

no_nul_last :
    (acc : List Text) (nm full : Text)
    → contains_rune (relative acc) 0 ≡ false
    → contains_rune (full ++ slash ∷ nm) 0 ≡ false
    → contains_rune (relative (nm ∷ acc)) 0 ≡ false
unfolding contains_rune relative
no_nul_last acc nm full h k =
    go acc h (last_false (contains_rune full 0) (contains_rune nm 0) (rw contains_rune-append at k))
  where
    last_false : (a b : Bool) → (a || b) ≡ false → b ≡ false
    last_false a b h = ground arith

    go :
        (acc : List Text)
        → contains_rune (relative acc) 0 ≡ false
        → contains_rune nm 0 ≡ false
        → contains_rune (relative (nm ∷ acc)) 0 ≡ false
    go [] h n = n
    go (t ∷ acc) h n =
        ap (λ z. contains_rune z 0) (relative_last nm t acc)
        ∙ contains_rune-append (relative (t ∷ acc)) (slash ∷ nm) 0
        ∙ ap₂ (λ a b. a || b) h n

made_ok :
    (b : Bool) (rel fname full : Text) (t : Place)
    → made b rel fname full ≡ ok t
    → (rel ≡ t.relative_path) × (fname ≡ t.file_name) × (full ≡ t.full_path)
unfolding made
made_ok true rel fname full t h =
    let e = ok_inj {E = StorageError} _ _ h in
    (ap (λ p. p.relative_path) e, ap (λ p. p.file_name) e, ap (λ p. p.full_path) e)
made_ok false rel fname full t h = absurd (cc)

-- The path of an upload and the place where it is written
at_place :
    (root rel fname full : Text) (acc : List Text)
    → IsRoot root
    → IsName fname
    → rel ≡ relative acc
    → Stack acc
    → safe_join root (rel ∷ []) ≡ ok full
    → contains_rune (join_path (full ∷ fname ∷ [])) 0 ≡ false
    → contains_rune rel 0 ≡ false
    → IsRoot full
    → Below root (join_path (full ∷ fname ∷ []))
      × (safe_join root (join_path (rel ∷ fname ∷ []) ∷ []) ≡ ok (join_path (full ∷ fname ∷ [])))
at_place root rel fname full acc r n e k a z nul fr =
    let target =
      join_path_names full fname fr
        (subst (All IsName) (sym (split_on_none slash fname n.1)) (n, tt)) in
    let clear = no_nul_last acc fname full (rw e at nul) (rw target at z) in
    let (again, _) = safe_join-again root acc fname full r k n clear (rw e at a) in
    let named : safe_join root (join_path (rel ∷ fname ∷ []) ∷ [])
        ≡ ok (join_path (full ∷ fname ∷ [])) =
      ap (λ y. safe_join root (join_path (y ∷ fname ∷ []) ∷ [])) e
      ∙ ap (λ y. safe_join root (y ∷ [])) (join_path-relative acc fname k n)
      ∙ again
      ∙ ap ok (sym target) in
    (safe_join-Below root (join_path (rel ∷ fname ∷ []) ∷ []) _ r named, named)

-- An upload is written below the root, and the path that it answers with is accepted and leads there.
pub place_ok :
    (l : LocalStorage) (subdir extension : Text) (at : Stamp) (os : Answers) (t : Place)
    → IsRoot l.root_abs
    → Slashless extension
    → place l subdir at extension os ≡ ok t
    → contains_rune (destination t) 0 ≡ false
    → Below l.root_abs (destination t)
      × (safe_join l.root_abs (file_path t ∷ []) ≡ ok (destination t))
unfolding place destination file_path date_path
place_ok l subdir extension at os t root h e n =
    let rel = join_path (subdir ∷ date_path at ∷ []) in
    let (full, a, m) =
      >>=_ok (safe_join l.root_abs (rel ∷ [])) (made os.mkdir rel (unique_filename at extension)) t
        e in
    let (er, ef, eu) = made_ok os.mkdir rel (unique_filename at extension) full t m in
    let (y, c) = join_path-clean subdir (date_path at) (not_empty (decimal at.year) _ slash) in
    let (plain, nul) = safe_join_part l.root_abs rel full a in
    let (acc, es, k) = clean-Stack y (rw c at plain) in
    rw (sym er, sym ef, sym eu)
      (at_place l.root_abs rel (unique_filename at extension) full acc root
        (unique_filename-IsName at extension h) (c ∙ es) k a (rw (sym ef, sym eu) at n) nul
        (Below-IsRoot l.root_abs full root (safe_join-Below l.root_abs (rel ∷ []) full root a)))

-- The path that an upload answers with, from what the client says
pub place_path :
    (l : LocalStorage) (subdir extension : Text) (at : Stamp) (os : Answers) (t : Place)
    → place l subdir at extension os ≡ ok t
    → file_path t
      ≡ join_path (join_path (subdir ∷ date_path at ∷ []) ∷ unique_filename at extension ∷ [])
unfolding place file_path
place_path l subdir extension at os t e =
    let rel = join_path (subdir ∷ date_path at ∷ []) in
    let name_of = unique_filename at extension in
    let (full, a, m) = >>=_ok (safe_join l.root_abs (rel ∷ [])) (made os.mkdir rel name_of) t e in
    let (er, ef, _) = made_ok os.mkdir rel name_of full t m in
    sym (ap₂ (λ x y. join_path (x ∷ y ∷ [])) er ef)
