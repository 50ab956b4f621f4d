-- ===== src/Base/Text/Laws.antt =====
-- Laws of the text functions: trimming, cutting, and splitting what was joined.
use mathlib.Core.List.{reverse, reverse-cons, reverse-reverse}
use xlgo_core.Base.Lists.{All}
use Prim.Native.Nat.{ℕ}
use mathlib.Core.Path.{◌≡◌, refl, ap, ◌∙◌}
use mathlib.Core.Bool.{false, ◌||◌}
use mathlib.Core.Option.{none, some}
use mathlib.Core.List.{List, [], ◌∷◌, ◌++◌}
use native.Mathlib.Omega.{arith}
use xlgo_core.Base.Text.{
  Text, contains_rune, is_space, trim_left, trim_space, cons_head, split_on, cut, join,
}

-- No code point of the text is a space.
abbrev pub IsSolid : Text → Type 0
IsSolid = All (λ c. is_space c ≡ false)

module _ {ℓ κ} {A : Type ℓ} (P : A → Type κ) where
  pub All-append : (xs ys : List A) → All P xs → All P ys → All P (xs ++ ys)
  All-append [] ys h k = k
  All-append (x ∷ xs) ys (p, h) k = (p, All-append xs ys h k)

  pub All-reverse : (xs : List A) → All P xs → All P (reverse xs)
  All-reverse [] h = tt
  All-reverse (x ∷ xs) (p, h) =
      rw reverse-cons (All-append (reverse xs) (x ∷ []) (All-reverse xs h) (p, tt))

trim_left_of_IsSolid : (s : Text) → IsSolid s → trim_left s ≡ s
unfolding trim_left
trim_left_of_IsSolid [] h = refl
trim_left_of_IsSolid (c ∷ s) (p, h) = rw p refl

pub trim_space_of_IsSolid : (s : Text) → IsSolid s → trim_space s ≡ s
unfolding trim_space
trim_space_of_IsSolid s h =
    ap (λ r. reverse (trim_left (reverse r))) (trim_left_of_IsSolid s h)
    ∙ ap reverse (trim_left_of_IsSolid (reverse s) (All-reverse (λ c. is_space c ≡ false) s h))
    ∙ reverse-reverse s

pub contains_rune-append :
    (s t : Text) (c : ℕ) → contains_rune (s ++ t) c ≡ (contains_rune s c || contains_rune t c)
unfolding contains_rune
contains_rune-append [] t c = refl
contains_rune-append (a ∷ s) t c = ground (arith, contains_rune-append s t c)

-- A text is cut at its first separator.
pub cut-append : (c : ℕ) (s t : Text) → contains_rune s c ≡ false → cut c (s ++ c ∷ t) ≡ some (s, t)
unfolding cut contains_rune
cut-append c [] t h = ground arith
cut-append c (a ∷ s) t h = ground (arith, cut-append c s t)

pub cut-none : (c : ℕ) (s : Text) → contains_rune s c ≡ false → cut c s ≡ none
unfolding cut contains_rune
cut-none c [] h = refl
cut-none c (a ∷ s) h = ground (arith, cut-none c s)

pub split_on-append :
    (c : ℕ) (s t : Text) → contains_rune s c ≡ false → split_on c (s ++ c ∷ t) ≡ s ∷ split_on c t
unfolding split_on contains_rune cons_head
split_on-append c [] t h = ground arith
split_on-append c (a ∷ s) t h = ground (arith, split_on-append c s t)

pub split_on_none : (c : ℕ) (s : Text) → contains_rune s c ≡ false → split_on c s ≡ s ∷ []
unfolding split_on contains_rune cons_head
split_on_none c [] h = refl
split_on_none c (a ∷ s) h = ground (arith, split_on_none c s)

-- Splitting undoes joining, where no part holds the separator.
pub split_on-join :
    (c : ℕ) (p : Text) (ps : List Text)
    → All (λ s. contains_rune s c ≡ false) (p ∷ ps)
    → split_on c (join (c ∷ []) (p ∷ ps)) ≡ p ∷ ps
unfolding join
split_on-join c p [] (h, _) = split_on_none c p h
split_on-join c p (q ∷ ps) (h, k) =
    split_on-append c p (join (c ∷ []) (q ∷ ps)) h ∙ ap (λ r. p ∷ r) (split_on-join c q ps k)
