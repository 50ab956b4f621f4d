-- ===== src/Storage/Paths/Relative.antt =====
-- storage/storage.go: a path below the directory of an upload, as `filepath.Join` and `safeJoin` make it.
use mathlib.Core.List.{reverse, reverse-reverse, reverse-cons, append-nil}
use xlgo_core.Base.{
  ℕ, ◌≡◌, refl, sym, ap, ap₂, subst, ◌∙◌, List, [], ◌∷◌, ◌++◌, true, false, ◌==◌, All, arith, inl,
  inr, ◌⊎◌,
}
use xlgo_core.Base.Text.{Text, text_eq, text_eq_iff, contains_rune, split_on, join, cons_head}
use xlgo_core.Base.Text.Laws.{
  All-append, All-reverse, split_on-join, split_on-append, split_on_none,
}
use xlgo_core.Base.Text.Split.{join-split_on, split_on_shape, split_on-join-append, join-append}
use xlgo_core.Storage.Paths.{
  slash, dot, dot_dot, up, segment, push, pop, resolve, relative, clean, join_path,
}
use xlgo_core.Storage.Paths.Clean.{
  IsName, IsRoot, All-weaken, resolve_names, resolve-append, push_name, Segment-cases,
}

-- The segments that a cleaned relative path is made of, the last one first: names after the `..`.
abbrev pub Stack : List Text → Type 0
Stack [] = Unit
Stack (s ∷ acc) = (IsName s × Stack acc) ⊎ ((s ≡ dot_dot) × All (λ t. t ≡ dot_dot) acc)

ups-Stack : (acc : List Text) → All (λ t. t ≡ dot_dot) acc → Stack acc
ups-Stack [] h = tt
ups-Stack (s ∷ acc) (e, h) = inr (e, h)

up_dots : (s : Text) → segment s ≡ up → s ≡ dot_dot
unfolding segment
up_dots s h = ground (arith, text_eq_iff s dot_dot)

dots_up : segment dot_dot ≡ up
unfolding segment text_eq
dots_up = refl

pop-Stack : (acc : List Text) → Stack acc → Stack (pop false acc)
unfolding pop
pop-Stack [] h = inr (refl, tt)
pop-Stack (t ∷ acc) (inl ((n, c), h)) = rw (Stack, n) h
pop-Stack (t ∷ acc) (inr (e, h)) = rw (Stack, e, dots_up) (inr (refl, (e, h)))

push-Stack :
    (s : Text) (acc : List Text)
    → contains_rune s slash ≡ false
    → Stack acc
    → Stack (push false s acc)
unfolding push
push-Stack s acc c h = elim (Segment-cases (segment s)) [
  | inl e ↦ rw (Stack, e) h
  | inr (inl e) ↦ rw (Stack, e) (pop-Stack acc h)
  | inr (inr e) ↦ rw (Stack, e) (inl ((e, c), h))
]

pub resolve-Stack :
    (ss acc : List Text)
    → All (λ s. contains_rune s slash ≡ false) ss
    → Stack acc
    → Stack (resolve false acc ss)
unfolding resolve
resolve-Stack [] acc h k = k
resolve-Stack (s ∷ ss) acc (c, h) k = resolve-Stack ss (push false s acc) h (push-Stack s acc c k)

push_again_up :
    (acc : List Text) → All (λ t. t ≡ dot_dot) acc → push false dot_dot acc ≡ dot_dot ∷ acc
unfolding push pop segment text_eq
push_again_up [] h = refl
push_again_up (t ∷ acc) (e, h) = rw e refl

push_again : (s : Text) (acc : List Text) → Stack (s ∷ acc) → push false s acc ≡ s ∷ acc
push_again s acc (inl ((n, c), h)) = push_name false s acc n
push_again s acc (inr (e, h)) = rw e (push_again_up acc h)

Stack-tail : (s : Text) (acc : List Text) → Stack (s ∷ acc) → Stack acc
Stack-tail s acc (inl (n, h)) = h
Stack-tail s acc (inr (e, h)) = ups-Stack acc h

-- Resolving a stack again gives the stack.
pub resolve_again : (acc : List Text) → Stack acc → resolve false [] (reverse acc) ≡ acc
unfolding resolve
resolve_again [] h = refl
resolve_again (s ∷ acc) h =
    ap (resolve false []) (reverse-cons s acc)
    ∙ resolve-append false (reverse acc) (s ∷ []) []
    ∙ ap (push false s) (resolve_again acc (Stack-tail s acc h))
    ∙ push_again s acc h

Stack-weaken : (acc : List Text) → Stack acc → All (λ s. contains_rune s slash ≡ false) acc
unfolding contains_rune
Stack-weaken [] h = tt
Stack-weaken (s ∷ acc) (inl ((n, c), h)) = (c, Stack-weaken acc h)
Stack-weaken (s ∷ acc) (inr (e, h)) = (rw e refl, Stack-weaken acc (ups-Stack acc h))

pub reverse_shape :
    (t : Text) (acc : List Text) → (p : Text) × (qs : List Text) × (reverse (t ∷ acc) ≡ p ∷ qs)
reverse_shape t [] = (t, [], refl)
reverse_shape t (s ∷ acc) =
    let (p, qs, e) = reverse_shape s acc in
    (p, qs ++ t ∷ [], reverse-cons t (s ∷ acc) ∙ ap (λ z. z ++ t ∷ []) e)

pub relative_last :
    (nm t : Text) (acc : List Text) → relative (nm ∷ t ∷ acc) ≡ relative (t ∷ acc) ++ slash ∷ nm
unfolding relative
relative_last nm t acc =
    ap (join (slash ∷ [])) (reverse-cons nm (t ∷ acc))
    ∙ glued (reverse (t ∷ acc)) (reverse_shape t acc)
  where
    glued :
        (ps : List Text)
        → (p : Text) × (qs : List Text) × (ps ≡ p ∷ qs)
        → join (slash ∷ []) (ps ++ nm ∷ []) ≡ join (slash ∷ []) ps ++ slash ∷ nm
    glued ps (p, qs, e) = rw e (join-append slash p qs nm [])

unfoldable pub Solid : Text → Type 0
Solid s = (c : ℕ) × (t : Text) × (s ≡ c ∷ t) × ((c == slash) ≡ false)

pub name-Solid : (s : Text) → IsName s → Solid s
unfolding Solid segment text_eq contains_rune
name-Solid [] (n, c) = absurd (cc)
name-Solid (a ∷ t) (n, c) = (a, t, refl, ground arith)

Stack-Solid : (acc : List Text) → Stack acc → All Solid acc
unfolding Solid
Stack-Solid [] h = tt
Stack-Solid (s ∷ acc) (inl (n, h)) = (name-Solid s n, Stack-Solid acc h)
Stack-Solid (s ∷ acc) (inr (e, h)) = ((b'.', dot, e, refl), Stack-Solid acc (ups-Stack acc h))

pub join-Solid : (p : Text) (qs : List Text) → Solid p → Solid (join (slash ∷ []) (p ∷ qs))
unfolding Solid join
join-Solid p [] h = h
join-Solid p (q ∷ qs) (c, t, e, n) = (
  c,
  t ++ slash ∷ join (slash ∷ []) (q ∷ qs),
  ap (λ z. z ++ slash ∷ join (slash ∷ []) (q ∷ qs)) e,
  n,
)

joined-Solid :
    (ps qs : List Text) (p : Text) → ps ≡ p ∷ qs → All Solid ps → Solid (join (slash ∷ []) ps)
joined-Solid ps qs p e h =
    subst (λ z. Solid (join (slash ∷ []) z)) (sym e) (join-Solid p qs (subst (All Solid) e h).0)

-- A cleaned relative path does not begin with a slash, nor is it empty.
pub relative-Solid : (acc : List Text) → Stack acc → Solid (relative acc)
unfolding Solid relative
relative-Solid [] h = (b'.', [], refl, refl)
relative-Solid (s ∷ acc) h =
    let (p, qs, e) = reverse_shape s acc in
    joined-Solid (reverse (s ∷ acc)) qs p e (All-reverse Solid (s ∷ acc) (Stack-Solid (s ∷ acc) h))

-- Splitting a cleaned relative path gives back its segments, as far as resolving them goes.
split_on-relative :
    (s : Text) (acc : List Text)
    → Stack (s ∷ acc)
    → split_on slash (relative (s ∷ acc)) ≡ reverse (s ∷ acc)
unfolding relative
split_on-relative s acc h =
    let (p, qs, e) = reverse_shape s acc in
    ap (λ z. split_on slash (join (slash ∷ []) z)) e
    ∙ split_on-join slash p qs (
        subst (All (λ t. contains_rune t slash ≡ false)) e
          (All-reverse (λ t. contains_rune t slash ≡ false) (s ∷ acc) (Stack-weaken (s ∷ acc) h)))
    ∙ sym e

pub resolve-relative :
    (acc st : List Text)
    → Stack acc
    → resolve true st (split_on slash (relative acc)) ≡ resolve true st (reverse acc)
unfolding resolve relative split_on cons_head push segment text_eq
resolve-relative [] st h = refl
resolve-relative (s ∷ acc) st h = ap (resolve true st) (split_on-relative s acc h)

relative_then :
    (acc : List Text) (nm : Text)
    → Stack acc
    → IsName nm
    → resolve false [] (split_on slash (relative acc ++ slash ∷ nm)) ≡ nm ∷ acc
unfolding contains_rune relative resolve push
relative_then [] nm h (n, c) =
    ap (resolve false [])
      (split_on-append slash dot nm refl ∙ ap (λ z. dot ∷ z) (split_on_none slash nm c))
    ∙ push_name false nm [] n
relative_then (s ∷ acc) nm h (n, c) =
    let (p, qs, e) = reverse_shape s acc in
    let pieces : All (λ t. contains_rune t slash ≡ false) (p ∷ qs) =
      subst (All (λ t. contains_rune t slash ≡ false)) e
        (All-reverse (λ t. contains_rune t slash ≡ false) (s ∷ acc) (Stack-weaken (s ∷ acc) h)) in
    ap (λ z. resolve false [] (split_on slash (join (slash ∷ []) z ++ slash ∷ nm))) e
    ∙ ap (resolve false []) (
        split_on-join-append slash p qs nm pieces
        ∙ ap₂ (λ y z. y ++ z) (sym e) (split_on_none slash nm c))
    ∙ resolve-append false (reverse (s ∷ acc)) (nm ∷ []) []
    ∙ ap (push false nm) (resolve_again (s ∷ acc) h)
    ∙ push_name false nm (s ∷ acc) n

join_path-Solid :
    (x nm : Text)
    → Solid x
    → join_path (x ∷ nm ∷ []) ≡ relative (resolve false [] (split_on slash (x ++ slash ∷ nm)))
unfolding Solid join_path clean join
join_path-Solid x nm (c, t, e, n) = rw (e, n) refl

-- Joining a name to a cleaned relative path cleans nothing away.
pub join_path-relative :
    (acc : List Text) (nm : Text)
    → Stack acc
    → IsName nm
    → join_path (relative acc ∷ nm ∷ []) ≡ relative (nm ∷ acc)
join_path-relative acc nm h n =
    join_path-Solid (relative acc) nm (relative-Solid acc h)
    ∙ ap relative (relative_then acc nm h n)

-- What `join_path` makes of a root and another path
pub join_path_root :
    (r : Text) (rs : List Text) (x : Text)
    → All IsName (r ∷ rs)
    → join_path ((slash ∷ join (slash ∷ []) (r ∷ rs)) ∷ x ∷ [])
      ≡ slash
        ∷ join (slash ∷ []) (reverse (resolve true (resolve true [] (r ∷ rs)) (split_on slash x)))
unfolding join_path clean join
join_path_root r rs x h =
    ap (λ z. slash ∷ join (slash ∷ []) (reverse z))
      (ap (resolve true []) (split_on-join-append slash r rs x (All-weaken (r ∷ rs) h))
        ∙ resolve-append true (r ∷ rs) (split_on slash x) [])

-- Joining names to a root cleans nothing away.
pub join_path_names :
    (root x : Text)
    → IsRoot root
    → All IsName (split_on slash x)
    → join_path (root ∷ x ∷ []) ≡ root ++ slash ∷ x
join_path_names root x (r, rs, e, h) k =
    let (p, qs, s) = split_on_shape slash x in
    ap (λ z. join_path (z ∷ x ∷ [])) e
    ∙ join_path_root r rs x h
    ∙ ap (λ z. slash ∷ join (slash ∷ []) (reverse z))
        (sym (resolve-append true (r ∷ rs) (split_on slash x) [])
          ∙ resolve_names true ((r ∷ rs) ++ split_on slash x) []
              (All-append IsName (r ∷ rs) (split_on slash x) h k)
          ∙ append-nil (reverse ((r ∷ rs) ++ split_on slash x)))
    ∙ ap (λ z. slash ∷ join (slash ∷ []) z)
        (reverse-reverse ((r ∷ rs) ++ split_on slash x) ∙ ap (λ z. (r ∷ rs) ++ z) s)
    ∙ ap (λ z. slash ∷ z) (join-append slash r rs p qs)
    ∙ ap₂ (λ y z. y ++ slash ∷ z) (sym e) (ap (join (slash ∷ [])) (sym s) ∙ join-split_on slash x)
