-- ===== src/Csrf/Paths.antt =====
-- middleware/csrf.go: CSRFWithSkip, and the boundary at which a skipped path ends.
use xlgo_core.Base.{
  ℕ, ◌≡◌, refl, sym, ap, ◌∙◌, List, [], ◌∷◌, ◌++◌, Bool, true, false, ◌||◌, some, Option, ◌==◌,
  if◌then◌else◌, any, arith,
}
use xlgo_core.Base.Text.{Text, codes, text_eq, has_prefix}
use xlgo_core.Base.Text.Split.{has_prefix-append, text_eq-append}
use mathlib.Core.List.{reverse, reverse-reverse, reverse-append}
use xlgo_core.Base.Int.{ℤ}
use xlgo_core.Csrf.{Request, Outcome, csrf, default_csrf_config}

drop_slashes : Text → Text
drop_slashes [] = []
drop_slashes (c ∷ s) = if c == 47 then drop_slashes s else c ∷ s

-- `strings.TrimRight(prefix, "/")`
trim_slashes : Text → Text
unfolding drop_slashes
trim_slashes s = reverse (drop_slashes (reverse s))

below : Text → Text → Bool
unfolding text_eq has_prefix
below path prefix = text_eq path prefix || has_prefix path (prefix ++ 47 ∷ [])

-- `pathMatchesSkip`
unfoldable pub path_matches_skip : Text → Text → Bool
unfolding trim_slashes below text_eq
path_matches_skip path [] = false
path_matches_skip path (c ∷ s) =
    if text_eq (c ∷ s) (codes "/") then true else below path (trim_slashes (c ∷ s))

-- `CSRFWithSkip`
unfoldable pub csrf_with_skip : (ℤ → Option Text) → List Text → Request → Outcome
unfolding csrf path_matches_skip
csrf_with_skip random skip_paths = csrf random (
    some (record default_csrf_config {
      skip_func = some (λ r. any (path_matches_skip r.path) skip_paths);
    }))

below-append : (p : Text) (c : ℕ) (s : Text) → below (p ++ c ∷ s) p ≡ (c == 47)
unfolding below has_prefix
below-append p c s = rw (text_eq-append p c s, has_prefix-append p (c ∷ s) (47 ∷ [])) (ground arith)

trim_slashes-end : (q : Text) (d : ℕ) → (d == 47) ≡ false → trim_slashes (q ++ d ∷ []) ≡ q ++ d ∷ []
unfolding trim_slashes drop_slashes
trim_slashes-end q d h =
    rw (reverse-append q (d ∷ []), h)
      (ap reverse (sym (reverse-append q (d ∷ []))) ∙ reverse-reverse (q ++ d ∷ []))

path_matches_skip-below :
    (path q : Text) (d : ℕ)
    → (d == 47) ≡ false
    → path_matches_skip path (q ++ d ∷ []) ≡ below path (trim_slashes (q ++ d ∷ []))
unfolding path_matches_skip text_eq
path_matches_skip-below path [] d h = rw h refl
path_matches_skip-below path (a ∷ []) d h = ground arith
path_matches_skip-below path (a ∷ b ∷ q) d h = ground arith

-- A configured path that ends in something else than a slash skips itself and what is below it: a
-- longer path that starts with it is skipped exactly if a slash comes next, so that "/admin" does
-- not skip "/administrator".
pub path_matches_skip-append :
    (q : Text) (d c : ℕ) (s : Text)
    → (d == 47) ≡ false
    → path_matches_skip ((q ++ d ∷ []) ++ c ∷ s) (q ++ d ∷ []) ≡ (c == 47)
path_matches_skip-append q d c s h =
    path_matches_skip-below ((q ++ d ∷ []) ++ c ∷ s) q d h
    ∙ ap (below ((q ++ d ∷ []) ++ c ∷ s)) (trim_slashes-end q d h)
    ∙ below-append (q ++ d ∷ []) c s
