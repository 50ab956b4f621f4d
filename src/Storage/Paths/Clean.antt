-- ===== src/Storage/Paths/Clean.antt =====
-- storage/storage.go: what is left of a path after `path.Clean`.
use mathlib.Core.List.{reverse, reverse-cons, append_assoc}
use xlgo_core.Base.{
  ◌≡◌, refl, sym, ap, ◌∙◌, List, [], ◌∷◌, ◌++◌, Bool, true, false, All, inl, inr, ◌⊎◌,
}
use xlgo_core.Base.Text.{Text, contains_rune, split_on, join}
use xlgo_core.Base.Text.Laws.{All-reverse}
use xlgo_core.Base.Text.Split.{split_on-All}
use xlgo_core.Storage.Paths.{slash, Segment, skip, up, name, segment, push, pop, resolve, clean}

-- A segment that names something: not empty, not `.`, not `..`, with no slash in it.
abbrev pub IsName : Text → Type 0
IsName s = (segment s ≡ name) × (contains_rune s slash ≡ false)

-- An absolute path other than `/` that `filepath.Clean` leaves as it is.
abbrev pub IsRoot : Text → Type 0
IsRoot root =
    (r : Text) × (rs : List Text) × (root ≡ slash ∷ join (slash ∷ []) (r ∷ rs))
    × All IsName (r ∷ rs)

pub Segment-cases : (k : Segment) → (k ≡ skip) ⊎ ((k ≡ up) ⊎ (k ≡ name))
Segment-cases skip = inl refl
Segment-cases up = inr (inl refl)
Segment-cases name = inr (inr refl)

pub All-weaken : (ss : List Text) → All IsName ss → All (λ s. contains_rune s slash ≡ false) ss
All-weaken [] h = tt
All-weaken (s ∷ ss) ((n, c), h) = (c, All-weaken ss h)

pub All-append_right {ℓ κ} :
    {A : Type ℓ} (P : A → Type κ) (xs ys : List A) → All P (xs ++ ys) → All P ys
All-append_right P [] ys h = h
All-append_right P (x ∷ xs) ys (p, h) = All-append_right P xs ys h

pub push_name :
    (rooted : Bool) (s : Text) (acc : List Text) → segment s ≡ name → push rooted s acc ≡ s ∷ acc
unfolding push
push_name rooted s acc h = rw (push, h) refl

pop-All : (acc : List Text) → All IsName acc → All IsName (pop true acc)
unfolding pop
pop-All [] h = tt
pop-All (t ∷ acc) ((n, c), h) = rw (All, n) h

push-All :
    (s : Text) (acc : List Text)
    → contains_rune s slash ≡ false
    → All IsName acc
    → All IsName (push true s acc)
unfolding push
push-All s acc c h = elim (Segment-cases (segment s)) [
  | inl e ↦ rw (All, e) h
  | inr (inl e) ↦ rw (All, e) (pop-All acc h)
  | inr (inr e) ↦ rw (All, e) ((e, c), h)
]

pub resolve-All :
    (ss acc : List Text)
    → All (λ s. contains_rune s slash ≡ false) ss
    → All IsName acc
    → All IsName (resolve true acc ss)
unfolding resolve
resolve-All [] acc h k = k
resolve-All (s ∷ ss) acc (c, h) k = resolve-All ss (push true s acc) h (push-All s acc c k)

pub resolve-append :
    (rooted : Bool) (ss ts acc : List Text)
    → resolve rooted acc (ss ++ ts) ≡ resolve rooted (resolve rooted acc ss) ts
unfolding resolve
resolve-append rooted [] ts acc = refl
resolve-append rooted (s ∷ ss) ts acc = resolve-append rooted ss ts (push rooted s acc)

-- Names are only piled up.
pub resolve_names :
    (rooted : Bool) (ss acc : List Text) → All IsName ss → resolve rooted acc ss ≡ reverse ss ++ acc
unfolding resolve
resolve_names rooted [] acc h = refl
resolve_names rooted (s ∷ ss) acc ((n, c), h) = rw (push_name rooted s acc n) (
    resolve_names rooted ss (s ∷ acc) h
    ∙ sym (append_assoc (reverse ss) (s ∷ []) acc)
    ∙ ap (λ r. r ++ acc) (sym (reverse-cons s ss)))

-- A cleaned absolute path is a slash and names with slashes between.
pub clean_rooted :
    (x : Text)
    → (qs : List Text) × (clean (slash ∷ x) ≡ slash ∷ join (slash ∷ []) qs)
      × All IsName qs
      × (qs ≡ reverse (resolve true [] (split_on slash x)))
unfolding clean
clean_rooted x =
    let left = resolve true [] (split_on slash x) in
    (
      reverse left,
      refl,
      All-reverse IsName left (resolve-All (split_on slash x) [] (split_on-All slash x) tt),
      refl,
    )

IsRoot-shape :
    (y : Text) (qs : List Text)
    → y ≡ slash ∷ join (slash ∷ []) qs
    → All IsName qs
    → (y ≡ slash ∷ []) ⊎ IsRoot y
unfolding join
IsRoot-shape y [] e h = inl e
IsRoot-shape y (q ∷ qs) e h = inr (q, qs, e, h)

-- What `NewLocalStorage` makes of an absolute path is the root of the system or a proper one.
pub clean-IsRoot : (x : Text) → (clean (slash ∷ x) ≡ slash ∷ []) ⊎ IsRoot (clean (slash ∷ x))
clean-IsRoot x = let (qs, e, h, _) = clean_rooted x in IsRoot-shape (clean (slash ∷ x)) qs e h
