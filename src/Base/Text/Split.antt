-- ===== src/Base/Text/Split.antt =====
-- What splitting a text and joining its parts have to do with each other.
use Prim.Native.Nat.{ℕ}
use mathlib.Core.Path.{◌≡◌, refl, sym, ap, ap₂, ◌∙◌}
use mathlib.Core.Logic.{inl, inr}
use mathlib.Core.Bool.{true, false}
use mathlib.Core.List.{List, [], ◌∷◌, ◌++◌, append_assoc}
use native.Mathlib.Omega.{arith}
use xlgo_core.Base.Tests.{◌==◌, Bool-cases, ==_iff}
use xlgo_core.Base.Lists.{All}
use xlgo_core.Base.Text.{Text, contains_rune, cons_head, split_on, join, has_prefix, text_eq}
use xlgo_core.Base.Text.Laws.{split_on-append}

-- No part that `split_on` makes holds the separator.
cons_head-All :
    (c a : ℕ) (ps : List Text)
    → (a == c) ≡ false
    → All (λ s. contains_rune s c ≡ false) ps
    → All (λ s. contains_rune s c ≡ false) (cons_head a ps)
unfolding cons_head contains_rune
cons_head-All c a [] other h = (rw other refl, tt)
cons_head-All c a (p ∷ ps) other (h, k) = (rw (other, h) refl, k)

pub split_on-All : (c : ℕ) (s : Text) → All (λ p. contains_rune p c ≡ false) (split_on c s)
unfolding split_on contains_rune
split_on-All c [] = (refl, tt)
split_on-All c (a ∷ s) = elim (Bool-cases (a == c)) [
  | inl same ↦ rw same (refl, split_on-All c s)
  | inr other ↦ rw other (cons_head-All c a (split_on c s) other (split_on-All c s))
]

join-cons_head :
    (c a : ℕ) (p : Text) (ps : List Text)
    → join (c ∷ []) (cons_head a (p ∷ ps)) ≡ a ∷ join (c ∷ []) (p ∷ ps)
unfolding join cons_head
join-cons_head c a p [] = refl
join-cons_head c a p (q ∷ ps) = refl

join_nil_cons :
    (c : ℕ) (p : Text) (ps : List Text) → join (c ∷ []) ([] ∷ p ∷ ps) ≡ c ∷ join (c ∷ []) (p ∷ ps)
unfolding join
join_nil_cons c p ps = refl

-- `split_on` makes a first part.
pub split_on_shape : (c : ℕ) (s : Text) → (p : Text) × (ps : List Text) × (split_on c s ≡ p ∷ ps)
unfolding split_on cons_head
split_on_shape c [] = ([], [], refl)
split_on_shape c (a ∷ s) =
    let (p, ps, e) = split_on_shape c s in
    elim (Bool-cases (a == c)) [
      | inl same ↦ ([], split_on c s, rw same refl)
      | inr other ↦ (a ∷ p, ps, rw (other, e) refl)
    ]

-- Joining the parts gives the text back.
pub join-split_on : (c : ℕ) (s : Text) → join (c ∷ []) (split_on c s) ≡ s
unfolding split_on join
join-split_on c [] = refl
join-split_on c (a ∷ s) =
    let (p, ps, e) = split_on_shape c s in
    elim (Bool-cases (a == c)) [
      | inl same ↦
          rw (same, e)
            (join_nil_cons c p ps
              ∙ ap₂ (λ b t. b ∷ t) (sym ((==_iff a c).0 same)) (rw e at (join-split_on c s)))
      | inr other ↦
          rw (other, e) (join-cons_head c a p ps ∙ ap (λ t. a ∷ t) (rw e at (join-split_on c s)))
    ]

-- A joined list in front of a separator is split off.
pub split_on-join-append :
    (c : ℕ) (p : Text) (ps : List Text) (t : Text)
    → All (λ s. contains_rune s c ≡ false) (p ∷ ps)
    → split_on c (join (c ∷ []) (p ∷ ps) ++ c ∷ t) ≡ (p ∷ ps) ++ split_on c t
unfolding join
split_on-join-append c p [] t (h, _) = split_on-append c p t h
split_on-join-append c p (q ∷ ps) t (h, k) =
    ap (split_on c) (append_assoc p (c ∷ join (c ∷ []) (q ∷ ps)) (c ∷ t))
    ∙ split_on-append c p (join (c ∷ []) (q ∷ ps) ++ c ∷ t) h
    ∙ ap (λ r. p ∷ r) (split_on-join-append c q ps t k)

pub join-append :
    (c : ℕ) (p : Text) (ps : List Text) (q : Text) (qs : List Text)
    → join (c ∷ []) ((p ∷ ps) ++ (q ∷ qs)) ≡ join (c ∷ []) (p ∷ ps) ++ c ∷ join (c ∷ []) (q ∷ qs)
unfolding join
join-append c p [] q qs = refl
join-append c p (r ∷ ps) q qs =
    ap (λ t. p ++ c ∷ t) (join-append c r ps q qs)
    ∙ sym (append_assoc p (c ∷ join (c ∷ []) (r ∷ ps)) (c ∷ join (c ∷ []) (q ∷ qs)))

-- A text that starts with another is that one and a rest.
pub has_prefix_rest : (p s : Text) → has_prefix s p ≡ true → (t : Text) × (s ≡ p ++ t)
unfolding has_prefix
has_prefix_rest [] s h = (s, refl)
has_prefix_rest (a ∷ p) [] h = absurd (cc)
has_prefix_rest (a ∷ p) (b ∷ s) h = elim (Bool-cases (b == a)) [
  | inl same ↦
      let (t, e) = has_prefix_rest p s (rw same at h) in
      (t, ap₂ (λ x y. x ∷ y) ((==_iff b a).0 same) e)
  | inr other ↦ absurd (cc (rw other at h))
]

pub has_prefix-append_self : (p t : Text) → has_prefix (p ++ t) p ≡ true
unfolding has_prefix
has_prefix-append_self [] [] = refl
has_prefix-append_self [] (c ∷ t) = refl
has_prefix-append_self (a ∷ p) t = ground (arith, has_prefix-append_self p t)

pub has_prefix-append : (p s t : Text) → has_prefix (p ++ s) (p ++ t) ≡ has_prefix s t
unfolding has_prefix
has_prefix-append [] s t = refl
has_prefix-append (a ∷ p) s t = ground (arith, has_prefix-append p s t)

pub text_eq-append : (p : Text) (c : ℕ) (s : Text) → text_eq (p ++ c ∷ s) p ≡ false
unfolding text_eq
text_eq-append [] c s = refl
text_eq-append (a ∷ p) c s = ground (arith, text_eq-append p c s)
