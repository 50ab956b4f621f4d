-- ===== src/Storage/Paths/Accept.antt =====
-- storage/storage.go: that `safeJoin` accepts what lies below the root, and the path of a file again
-- where it accepted the path of the directory.
use mathlib.Core.List.{reverse, reverse-cons, append_assoc}
use xlgo_core.Base.{
  ℕ, ◌≡◌, refl, sym, ap, ap₂, subst, ◌∙◌, List, [], ◌∷◌, ◌++◌, true, false, All, inl, ok, none,
}
use xlgo_core.Base.Text.{Text, contains_rune, has_prefix, split_on, join}
use xlgo_core.Base.Text.Laws.{split_on_none, All-append}
use xlgo_core.Base.Text.Split.{
  split_on_shape, has_prefix-append_self, join-append, join-split_on, text_eq-append,
}
use xlgo_core.Storage.Paths.{
  slash, resolve, relative, join_path, anchored, refused_part, safe_join, is_abs,
}
use xlgo_core.Storage.Paths.Clean.{IsName, IsRoot, push_name, resolve-append}
use xlgo_core.Storage.Paths.Anchor.{
  Below, safe_join-Below, safe_join_unfolded, anchored_ok, nil_not_append, tail_eq,
}
use xlgo_core.Storage.Paths.Relative.{
  Stack, Solid, relative-Solid, name-Solid, join-Solid, reverse_shape, resolve-relative,
  join_path_root, join_path_names,
}

pub Below-IsRoot : (root p : Text) → IsRoot root → Below root p → IsRoot p
Below-IsRoot root p (r, rs, e, h) (t, j, k) =
    let (q, qs, s) = split_on_shape slash t in
    (
      r,
      rs ++ split_on slash t,
      j
          ∙ ap₂ (λ y z. y ++ slash ∷ z) e (sym (join-split_on slash t) ∙ ap (join (slash ∷ [])) s)
          ∙ sym (
              ap (λ z. slash ∷ z)
                (ap (λ z. join (slash ∷ []) ((r ∷ rs) ++ z)) s ∙ join-append slash r rs q qs)),
      All-append IsName (r ∷ rs) (split_on slash t) h k,
    )

Solid-is_abs : (p : Text) → Solid p → is_abs p ≡ false
unfolding Solid is_abs has_prefix
Solid-is_abs p (c, t, e, n) = rw (e, n) refl

accepted_part : (p : Text) → Solid p → contains_rune p 0 ≡ false → refused_part (p ∷ []) ≡ none
unfolding refused_part
accepted_part p s n = rw (Solid-is_abs p s, n) refl

anchored_below : (root t : Text) → anchored root (root ++ slash ∷ t) ≡ ok (root ++ slash ∷ t)
unfolding anchored
anchored_below root t = rw (text_eq-append root slash t, prefix) refl
  where
    prefix : has_prefix (root ++ slash ∷ t) (root ++ slash ∷ []) ≡ true
    prefix =
        subst (λ z. has_prefix z (root ++ slash ∷ []) ≡ true) (append_assoc root (slash ∷ []) t)
          (has_prefix-append_self (root ++ slash ∷ []) t)

safe_join_accepts :
    (root p t : Text)
    → IsRoot root
    → Solid p
    → contains_rune p 0 ≡ false
    → join_path (root ∷ p ∷ []) ≡ root ++ slash ∷ t
    → safe_join root (p ∷ []) ≡ ok (root ++ slash ∷ t)
unfolding safe_join
safe_join_accepts root p t (r, rs, e, h) s n j = go root (slash, join (slash ∷ []) (r ∷ rs), e) j
  where
    go :
        (root : Text)
        → ((c : ℕ) × (x : Text) × (root ≡ c ∷ x))
        → join_path (root ∷ p ∷ []) ≡ root ++ slash ∷ t
        → safe_join root (p ∷ []) ≡ ok (root ++ slash ∷ t)
    go [] (c, x, e) j = absurd (cc)
    go (c ∷ x) _ j = rw (safe_join, accepted_part p s n, j) (anchored_below (c ∷ x) t)

names-Solid : (p : Text) → All IsName (split_on slash p) → Solid p
names-Solid p k =
    let (q, qs, e) = split_on_shape slash p in
    let named : All IsName (q ∷ qs) = subst (All IsName) e k in
    subst Solid (ap (join (slash ∷ [])) (sym e) ∙ join-split_on slash p)
      (join-Solid q qs (name-Solid q named.0))

-- A path whose segments are all names, without a NUL, is accepted, and stands below the root as it is.
pub safe_join_names :
    (root p : Text)
    → IsRoot root
    → All IsName (split_on slash p)
    → contains_rune p 0 ≡ false
    → safe_join root (p ∷ []) ≡ ok (root ++ slash ∷ p)
safe_join_names root p h k n =
    safe_join_accepts root p p h (names-Solid p k) n (join_path_names root p h k)

left_over : (r : Text) (rs acc : List Text) → List Text
left_over r rs acc = resolve true (resolve true [] (r ∷ rs)) (reverse acc)

joined_relative :
    (r : Text) (rs acc : List Text) (root : Text)
    → root ≡ slash ∷ join (slash ∷ []) (r ∷ rs)
    → All IsName (r ∷ rs)
    → Stack acc
    → join_path (root ∷ relative acc ∷ [])
      ≡ slash ∷ join (slash ∷ []) (reverse (left_over r rs acc))
unfolding left_over
joined_relative r rs acc root e h k =
    ap (λ z. join_path (z ∷ relative acc ∷ [])) e
    ∙ join_path_root r rs (relative acc) h
    ∙ ap (λ z. slash ∷ join (slash ∷ []) (reverse z))
        (resolve-relative acc (resolve true [] (r ∷ rs)) k)

left_over_name :
    (r : Text) (rs acc : List Text) (nm : Text)
    → IsName nm
    → left_over r rs (nm ∷ acc) ≡ nm ∷ left_over r rs acc
unfolding left_over resolve
left_over_name r rs acc nm (n, c) =
    let st = resolve true [] (r ∷ rs) in
    ap (resolve true st) (reverse-cons nm acc)
    ∙ resolve-append true (reverse acc) (nm ∷ []) st
    ∙ push_name true nm (resolve true st (reverse acc)) n

join_last :
    (qs : List Text) (nm full : Text)
    → full ≡ slash ∷ join (slash ∷ []) (reverse qs)
    → ((t : Text) × (a : Text) × (full ≡ (slash ∷ a) ++ slash ∷ t))
    → slash ∷ join (slash ∷ []) (reverse (nm ∷ qs)) ≡ full ++ slash ∷ nm
unfolding join
join_last [] nm full e (t, a, f) = absurd (nil_not_append a t slash (tail_eq (sym e ∙ f)))
join_last (q ∷ qs) nm full e _ =
    let (p, ps, s) = reverse_shape q qs in
    ap (λ z. slash ∷ join (slash ∷ []) z) (reverse-cons nm (q ∷ qs) ∙ ap (λ z. z ++ nm ∷ []) s)
    ∙ ap (λ z. slash ∷ z) (join-append slash p ps nm [])
    ∙ ap (λ z. z ++ slash ∷ nm) (sym (e ∙ ap (λ z. slash ∷ join (slash ∷ []) z) s))

-- Where the path of a directory is accepted, the path of a file in it is, and names that file.
pub safe_join-again :
    (root : Text) (acc : List Text) (nm full : Text)
    → IsRoot root
    → Stack acc
    → IsName nm
    → contains_rune (relative (nm ∷ acc)) 0 ≡ false
    → safe_join root (relative acc ∷ []) ≡ ok full
    → (safe_join root (relative (nm ∷ acc) ∷ []) ≡ ok (full ++ slash ∷ nm))
      × (join_path (full ∷ nm ∷ []) ≡ full ++ slash ∷ nm)
safe_join-again root acc nm full (r, rs, e, h) k n z a =
    let (t, f, below) = safe_join-Below root (relative acc ∷ []) full (r, rs, e, h) a in
    let joined : join_path (root ∷ relative acc ∷ []) ≡ full =
      (anchored_ok root (join_path (root ∷ relative acc ∷ [])) full
        (safe_join_unfolded root (relative acc ∷ []) full a)).0 in
    let longer : join_path (root ∷ relative (nm ∷ acc) ∷ []) ≡ full ++ slash ∷ nm =
      joined_relative r rs (nm ∷ acc) root e h (inl (n, k))
      ∙ ap (λ q. slash ∷ join (slash ∷ []) (reverse q)) (left_over_name r rs acc nm n)
      ∙ join_last (left_over r rs acc) nm full (sym joined ∙ joined_relative r rs acc root e h k)
          (t, join (slash ∷ []) (r ∷ rs), f ∙ ap (λ y. y ++ slash ∷ t) e) in
    let regroup : full ++ slash ∷ nm ≡ root ++ slash ∷ (t ++ slash ∷ nm) =
      ap (λ y. y ++ slash ∷ nm) f ∙ append_assoc root (slash ∷ t) (slash ∷ nm) in
    (
      safe_join_accepts root (relative (nm ∷ acc)) (t ++ slash ∷ nm) (r, rs, e, h)
            (relative-Solid (nm ∷ acc) (inl (n, k))) z (longer ∙ regroup)
          ∙ ap ok (sym regroup),
      join_path_names full nm (Below-IsRoot root full (r, rs, e, h) (t, f, below))
          (subst (All IsName) (sym (split_on_none slash nm n.1)) (n, tt)),
    )
