-- ===== src/Repository/Orders.antt =====
-- repository/repository.go, `validateOrderClause`: which code points an accepted clause can hold.
use mathlib.Core.List.{reverse, reverse-cons}
use xlgo_core.Base.{
  ℕ, ◌≡◌, inl, inr, refl, sym, ◌∙◌, subst, List, [], ◌∷◌, ◌++◌, Bool, true, false, ◌&&◌, ◌||◌,
  if◌then◌else◌, ◌==◌, leb, map, all, Result, ok, err, arith, Bool-cases, ==_iff,
}
use xlgo_core.Base.Text.{
  Text, codes, text_eq, text_eq_iff, split_on, cons_head, fields, fields_from, flush, trim_space,
  trim_left, to_upper, is_space,
}
use xlgo_core.Repository.{
  RepositoryError, unsafe_order, goes_on, is_identifier, dotted, is_identifier_path, direction,
  ordered, order_item, order_items, validate_order_clause,
}

all-append : (P : ℕ → Bool) (s t : Text) → all P (s ++ t) ≡ (all P s && all P t)
all-append P [] t = refl
all-append P (c ∷ s) t = ground (arith, all-append P s t)

all-reverse : (P : ℕ → Bool) (s : Text) → all P (reverse s) ≡ all P s
all-reverse P [] = refl
all-reverse P (c ∷ s) =
    rw reverse-cons (ground (arith, all-append P (reverse s) (c ∷ []), all-reverse P s))

-- What holds of the parts and of what is between them holds of the whole.
module _ (P : ℕ → Bool) (blank : (c : ℕ) → is_space c ≡ true → P c ≡ true) where
  trim_left-all : (s : Text) → all P (trim_left s) ≡ true → all P s ≡ true
  unfolding trim_left
  trim_left-all [] h = refl
  trim_left-all (c ∷ s) h = ground (arith, trim_left-all s, blank c)

  trim_space-all : (s : Text) → all P (trim_space s) ≡ true → all P s ≡ true
  unfolding trim_space
  trim_space-all s h = trim_left-all s (
      sym (all-reverse P (trim_left s))
      ∙ trim_left-all (reverse (trim_left s))
          (sym (all-reverse P (trim_left (reverse (trim_left s)))) ∙ h))

  flush-all :
      (w : Text) (ps : List Text)
      → all (all P) (flush w ps) ≡ true
      → (all P w ≡ true) × (all (all P) ps ≡ true)
  unfolding flush
  flush-all [] ps h = (refl, h)
  flush-all (c ∷ w) ps h =
      let e = all-reverse P (c ∷ w) in (ground (arith, h, e), ground (arith, h))

  fields_from-all :
      (w s : Text) → all (all P) (fields_from w s) ≡ true → (all P w ≡ true) × (all P s ≡ true)
  unfolding fields_from
  fields_from-all w [] h = ((flush-all w [] h).0, refl)
  fields_from-all w (c ∷ s) h = elim (Bool-cases (is_space c)) [
    | inl y ↦
        let (a, b) = flush-all w (fields_from [] s) (rw (y, fields_from) at h) in
        let rest = (fields_from-all [] s b).1 in
        let here = blank c y in (a, ground (arith, here, rest))
    | inr n ↦
        let (a, b) = fields_from-all (c ∷ w) s (rw (n, fields_from) at h) in
        (ground (arith, a), ground (arith, a, b))
  ]

  cons_head-all :
      (c : ℕ) (ps : List Text)
      → all (all P) (cons_head c ps) ≡ true
      → (P c ≡ true) × (all (all P) ps ≡ true)
  unfolding cons_head
  cons_head-all c [] h = (ground (arith, h), refl)
  cons_head-all c (p ∷ ps) h = (ground (arith, h), ground (arith, h))

  split_on-all :
      (sep : ℕ) (s : Text) → P sep ≡ true → all (all P) (split_on sep s) ≡ true → all P s ≡ true
  unfolding split_on
  split_on-all sep [] p h = refl
  split_on-all sep (c ∷ s) p h = elim (Bool-cases (c == sep)) [
    | inl y ↦
        let k : all (all P) ([] ∷ split_on sep s) ≡ true = rw (y, split_on) at h in
        let rest = split_on-all sep s p (ground (arith, k)) in
        let here : P c ≡ true = subst (λ x. P x ≡ true) (sym ((==_iff c sep).0 y)) p in
        ground (arith, here, rest)
    | inr n ↦
        let (a, b) = cons_head-all c (split_on sep s) (rw (n, split_on) at h) in
        let rest = split_on-all sep s p b in ground (arith, a, rest)
  ]

all_imp :
    {A : Type 0} (P Q : A → Bool)
    → ((x : A) → P x ≡ true → Q x ≡ true)
    → (xs : List A) → all P xs ≡ true
    → all Q xs ≡ true
all_imp P Q f [] h = refl
all_imp P Q f (x ∷ xs) h = ground (arith, f x, all_imp P Q f xs)

-- The letters that can spell ASC or DESC, among them U+017F.
abbrev pub spells : ℕ → Bool
spells c = (leb 65 c && leb c 90) || ((leb 97 c && leb c 122) || (c == 305 || c == 383))

capital : ℕ → Bool
capital c = leb 65 c && leb c 90

spelled : (d : Text) → all capital (map to_upper d) ≡ true → all spells d ≡ true
unfolding to_upper capital
spelled [] h = refl
spelled (c ∷ d) h = ground (arith, spelled d)

module _ (letter digit : ℕ → Bool) where
  -- The code points that cannot leave an identifier or an order: no quotes, no parentheses, no
  -- semicolon, no dash.
  abbrev pub harmless : ℕ → Bool
  harmless c =
      is_space c || ((c == b',' || (c == b'.' || c == b'_')) || (spells c || (letter c || digit c)))

  is_identifier-harmless : (s : Text) → is_identifier letter digit s ≡ true → all harmless s ≡ true
  unfolding is_identifier
  is_identifier-harmless [] h = cc
  is_identifier-harmless (c ∷ s) h =
      let rest =
        all_imp (goes_on letter digit) harmless (λ x k. ground arith) s (ground (arith, h)) in
      ground (arith, h, rest)

  blank_harmless : (c : ℕ) → is_space c ≡ true → harmless c ≡ true
  blank_harmless c h = ground (arith, h)

  dotted-harmless : (s : Text) → dotted letter digit s ≡ true → all harmless s ≡ true
  unfolding dotted is_space
  dotted-harmless [] h = cc
  dotted-harmless (c ∷ s) h = split_on-all harmless blank_harmless b'.' (c ∷ s) refl (
      all_imp (is_identifier letter digit) (all harmless) is_identifier-harmless
        (split_on b'.' (c ∷ s)) h)

  is_identifier_path-harmless :
      (s : Text) → is_identifier_path letter digit s ≡ true → all harmless s ≡ true
  unfolding is_identifier_path
  is_identifier_path-harmless s h =
      trim_space-all harmless blank_harmless s (dotted-harmless (trim_space s) h)

  direction-harmless : (d : Text) → direction d ≡ true → all harmless d ≡ true
  unfolding direction capital
  direction-harmless d h =
      all_imp spells harmless (λ x k. ground arith) d
        (spelled d (elim (Bool-cases (text_eq (map to_upper d) (codes "ASC"))) [
          | inl y ↦
              subst (λ t. all capital t ≡ true)
                (sym ((text_eq_iff (map to_upper d) (codes "ASC")).0 y)) refl
          | inr n ↦
              subst (λ t. all capital t ≡ true)
                (sym ((text_eq_iff (map to_upper d) (codes "DESC")).0 (ground (arith, h, n)))) refl
        ]))

  ordered-harmless :
      (fs : List Text) → ordered letter digit fs ≡ true → all (all harmless) fs ≡ true
  unfolding ordered
  ordered-harmless [] h = cc
  ordered-harmless (f ∷ []) h = let a = is_identifier_path-harmless f h in ground (arith, a)
  ordered-harmless (f ∷ d ∷ []) h =
      let a = is_identifier_path-harmless f (ground (arith, h)) in
      let b = direction-harmless d (ground (arith, h)) in ground (arith, a, b)
  ordered-harmless (f ∷ d ∷ e ∷ es) h = cc

  order_item-harmless : (s : Text) → order_item letter digit s ≡ true → all harmless s ≡ true
  unfolding order_item fields
  order_item-harmless s h = trim_space-all harmless blank_harmless s (
      (fields_from-all harmless blank_harmless [] (trim_space s)
        (ordered-harmless (fields (trim_space s)) h)).1)

  order_items-harmless : (s : Text) → order_items letter digit s ≡ true → all harmless s ≡ true
  unfolding order_items is_space
  order_items-harmless [] h = cc
  order_items-harmless (c ∷ s) h = split_on-all harmless blank_harmless b',' (c ∷ s) refl (
      all_imp (order_item letter digit) (all harmless) order_item-harmless (split_on b',' (c ∷ s))
        h)

  accepted :
      (b : Bool)
      → (if◌then◌else◌ {A = Result RepositoryError (Unit {0})} b (ok tt) (err unsafe_order)) ≡ ok tt
      → b ≡ true
  accepted true h = refl
  accepted false h = cc

  -- An order clause that is accepted holds nothing but letters, digits, underscores, dots, commas and
  -- spaces: no quote, parenthesis, semicolon or comment can reach the query by it.
  pub validate_order_clause-harmless :
      (order : Text) → validate_order_clause letter digit order ≡ ok tt → all harmless order ≡ true
  unfolding validate_order_clause
  validate_order_clause-harmless order h = trim_space-all harmless blank_harmless order (
      order_items-harmless (trim_space order)
        (accepted (order_items letter digit (trim_space order)) h))
