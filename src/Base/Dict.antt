-- ===== src/Base/Dict.antt =====
-- Go's `map[string]V` as an association list over texts, with one entry for each key.
use mathlib.Core.Path.{◌≡◌, refl}
use mathlib.Core.Bool.{Bool}
use mathlib.Core.List.{List, [], ◌∷◌}
use mathlib.Core.Option.{Option, none, some}
use native.Mathlib.Omega.{arith}
use xlgo_core.Base.Tests.{if◌then◌else◌}
use xlgo_core.Base.Text.{Text, text_eq, text_eq_refl, text_eq_iff}

abbrev pub Dict {ℓ} : Type ℓ → Type ℓ
Dict V = List (Text × V)

module _ {ℓ} {V : Type ℓ} where
  unfoldable pub lookup : Text → Dict V → Option V
  unfolding text_eq
  lookup k [] = none
  lookup k ((j, v) ∷ m) = if text_eq j k then some v else lookup k m

  -- `delete(m, k)`
  unfoldable pub delete : Text → Dict V → Dict V
  unfolding text_eq
  delete k [] = []
  delete k ((j, v) ∷ m) = if text_eq j k then delete k m else (j, v) ∷ delete k m

  -- `m[k] = v`
  unfoldable pub insert : Text → V → Dict V → Dict V
  unfolding delete
  insert k v m = (k, v) ∷ delete k m

  -- The loop that deletes every entry whose value fails a test.
  unfoldable pub retain : (V → Bool) → Dict V → Dict V
  retain p [] = []
  retain p ((j, v) ∷ m) = if p v then (j, v) ∷ retain p m else retain p m

  -- Each key stands once.
  abbrev pub Unique : Dict V → Type ℓ
  Unique [] = Unit
  Unique ((j, v) ∷ m) = (lookup j m ≡ none) × Unique m

  pub lookup-delete :
      (k j : Text) (m : Dict V) → lookup j (delete k m) ≡ (if text_eq k j then none else lookup j m)
  unfolding lookup delete
  lookup-delete k j [] = ground arith
  lookup-delete k j ((i, w) ∷ m) =
      ground (arith, text_eq_iff k j, text_eq_iff i k, text_eq_iff i j, lookup-delete k j m)

  pub lookup-insert :
      (k j : Text) (v : V) (m : Dict V)
      → lookup j (insert k v m) ≡ (if text_eq k j then some v else lookup j m)
  unfolding lookup insert
  lookup-insert k j v m = ground (arith, lookup-delete k j m)

  abbrev pub keep_if : (V → Bool) → Option V → Option V
  keep_if p none = none
  keep_if p (some v) = if p v then some v else none

  pub lookup-retain-none :
      (p : V → Bool) (k : Text) (m : Dict V) → lookup k m ≡ none → lookup k (retain p m) ≡ none
  unfolding lookup retain
  lookup-retain-none p k [] h = refl
  lookup-retain-none p k ((j, v) ∷ m) h = ground (arith, lookup-retain-none p k m)

  pub lookup-retain :
      (p : V → Bool) (k : Text) (m : Dict V)
      → Unique m
      → lookup k (retain p m) ≡ keep_if p (lookup k m)
  unfolding lookup retain
  lookup-retain p k [] u = refl
  lookup-retain p k ((j, v) ∷ m) (fresh, u) =
      ground (arith, text_eq_iff j k, lookup-retain p k m u, lookup-retain-none p k m)

  pub retain-Unique : (p : V → Bool) (m : Dict V) → Unique m → Unique (retain p m)
  unfolding retain
  retain-Unique p [] u = tt
  retain-Unique p ((j, v) ∷ m) (fresh, u) =
      ground (arith, lookup-retain-none p j m, retain-Unique p m u)

  pub delete-Unique : (k : Text) (m : Dict V) → Unique m → Unique (delete k m)
  unfolding delete
  delete-Unique k [] u = tt
  delete-Unique k ((j, v) ∷ m) (fresh, u) = ground (arith, lookup-delete k j m, delete-Unique k m u)

  pub insert-Unique : (k : Text) (v : V) (m : Dict V) → Unique m → Unique (insert k v m)
  unfolding insert
  insert-Unique k v m u = (rw lookup-delete (ground (arith, text_eq_refl k)), delete-Unique k m u)
