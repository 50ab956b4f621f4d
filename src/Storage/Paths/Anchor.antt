-- ===== src/Storage/Paths/Anchor.antt =====
-- storage/storage.go: the paths that `safeJoin` accepts.
use mathlib.Core.List.{append_assoc}
use xlgo_core.Base.{
  ℕ, ◌≡◌, refl, sym, ap, subst, ◌∙◌, List, [], ◌∷◌, ◌++◌, Bool, true, false, not, ◌||◌,
  if◌then◌else◌, All, arith, ok, err, none, some, Option,
}
use xlgo_core.Base.Text.{Text, text_eq, has_prefix, split_on, join}
use xlgo_core.Base.Text.Laws.{split_on-join}
use xlgo_core.Base.Text.Split.{split_on-join-append, has_prefix_rest}
use xlgo_core.Storage.Paths.{
  slash, clean, join_path, anchored, refused_part, safe_join, path_traversal, StorageError,
}
use xlgo_core.Storage.Paths.Clean.{IsName, IsRoot, All-weaken, All-append_right, clean_rooted}

-- The path lies below the root: the root, a slash, and names with slashes between.
abbrev pub Below : Text → Text → Type 0
Below root p = (t : Text) × (p ≡ root ++ slash ∷ t) × All IsName (split_on slash t)

pub tail_eq : {a b : ℕ} {s t : Text} → a ∷ s ≡ b ∷ t → s ≡ t
tail_eq h = cc

pub nil_not_append : (s t : Text) (c : ℕ) → [] ≡ s ++ c ∷ t → ⊥
nil_not_append [] t c h = cc
nil_not_append (a ∷ s) t c h = cc

below_of :
    (r : Text) (rs qs : List Text) (t : Text)
    → join (slash ∷ []) qs ≡ join (slash ∷ []) (r ∷ rs) ++ slash ∷ t
    → All IsName (r ∷ rs)
    → All IsName qs
    → All IsName (split_on slash t)
unfolding join
below_of r rs [] t e h k = absurd (nil_not_append (join (slash ∷ []) (r ∷ rs)) t slash e)
below_of r rs (q ∷ qs) t e h k =
    let split : q ∷ qs ≡ (r ∷ rs) ++ split_on slash t =
      sym (split_on-join slash q qs (All-weaken (q ∷ qs) k))
      ∙ ap (split_on slash) e
      ∙ split_on-join-append slash r rs t (All-weaken (r ∷ rs) h) in
    All-append_right IsName (r ∷ rs) (split_on slash t) (subst (All IsName) split k)

guard_ok :
    (bad : Bool) (x p : Text)
    → (if bad then err path_traversal else ok x) ≡ ok p
    → (bad ≡ false) × (x ≡ p)
guard_ok true x p h = absurd (cc)
guard_ok false x p h = (refl, cc)

not_either : (a b : Bool) → (a || not b) ≡ false → b ≡ true
not_either a b h = ground arith

pub anchored_ok :
    (root joined p : Text)
    → anchored root joined ≡ ok p
    → (joined ≡ p) × (has_prefix joined (root ++ slash ∷ []) ≡ true)
unfolding anchored
anchored_ok root joined p h =
    let (fine, e) =
      guard_ok (text_eq joined root || not (has_prefix joined (root ++ slash ∷ []))) joined p h in
    (e, not_either (text_eq joined root) (has_prefix joined (root ++ slash ∷ [])) fine)

join_first :
    (c : ℕ) (s : Text) (ps : List Text) → (x : Text) × (join (slash ∷ []) ((c ∷ s) ∷ ps) ≡ c ∷ x)
unfolding join
join_first c s [] = (s, refl)
join_first c s (p ∷ ps) = (s ++ slash ∷ join (slash ∷ []) (p ∷ ps), refl)

anchored_below :
    (r : Text) (rs qs : List Text) (root joined p : Text)
    → root ≡ slash ∷ join (slash ∷ []) (r ∷ rs)
    → joined ≡ slash ∷ join (slash ∷ []) qs
    → All IsName (r ∷ rs)
    → All IsName qs
    → anchored root joined ≡ ok p
    → Below root p
anchored_below r rs qs root joined p e j h k a =
    let (same, pre) = anchored_ok root joined p a in
    let (t, rest) = has_prefix_rest (root ++ slash ∷ []) joined pre in
    let whole : joined ≡ root ++ slash ∷ t = rest ∙ append_assoc root (slash ∷ []) t in
    let inside : slash ∷ join (slash ∷ []) qs ≡ slash ∷ (join (slash ∷ []) (r ∷ rs) ++ slash ∷ t) =
      sym j ∙ whole ∙ ap (λ z. z ++ slash ∷ t) e in
    (t, sym same ∙ whole, below_of r rs qs t (tail_eq inside) h k)

pub safe_join_unfolded :
    (root : Text) (parts : List Text) (p : Text)
    → safe_join root parts ≡ ok p
    → anchored root (join_path (root ∷ parts)) ≡ ok p
unfolding safe_join
safe_join_unfolded [] parts p h = absurd (cc)
safe_join_unfolded (c ∷ root) parts p h = accepted (refused_part parts) h
  where
    accepted :
        (o : Option StorageError)
        → (elim o [ some e ↦ err e | none ↦ anchored (c ∷ root) (join_path ((c ∷ root) ∷ parts)) ])
          ≡ ok p
        → anchored (c ∷ root) (join_path ((c ∷ root) ∷ parts)) ≡ ok p
    accepted none h = h
    accepted (some e) h = absurd (cc)

joined_rooted :
    (x : Text) (parts : List Text)
    → (qs : List Text) × (join_path ((slash ∷ x) ∷ parts) ≡ slash ∷ join (slash ∷ []) qs)
      × All IsName qs
unfolding join_path
joined_rooted x parts =
    let (y, e) = join_first slash x parts in
    let (qs, shape, h, _) = clean_rooted y in (qs, ap clean e ∙ shape, h)

-- A path that `safeJoin` accepts lies below the root, whatever the parts are: after the root come a
-- slash and names, none of them empty, `.`, `..` or with a slash in it.
pub safe_join-Below :
    (root : Text) (parts : List Text) (p : Text)
    → IsRoot root
    → safe_join root parts ≡ ok p
    → Below root p
safe_join-Below root parts p (r, rs, e, h) a =
    let (qs, j, k) = joined_rooted (join (slash ∷ []) (r ∷ rs)) parts in
    anchored_below r rs qs root (join_path (root ∷ parts)) p e
      (ap (λ z. join_path (z ∷ parts)) e ∙ j) h k (safe_join_unfolded root parts p a)
