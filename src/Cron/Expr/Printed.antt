-- ===== src/Cron/Expr/Printed.antt =====
-- cron/cron.go, `matchField`: a field that is written from items matches what they denote.
use mathlib.Core.List.{append-nil}
use xlgo_core.Base.{
  ℕ, ◌<◌, ◌≡◌, refl, ◌∙◌, ap, ap₂, subst, List, [], ◌∷◌, ◌++◌, map, false, not, ◌&&◌, ◌||◌, arith,
  any, All,
}
use xlgo_core.Base.Text.{Text, codes, text_eq, contains_rune, join, is_space}
use xlgo_core.Base.Text.Laws.{
  IsSolid, All-append, trim_space_of_IsSolid, contains_rune-append, split_on-join,
}
use xlgo_core.Cron.Expr.{match_items, match_field}
use xlgo_core.Cron.Expr.Meaning.{
  show, show-plain, plain-IsSolid, plain-contains, Item, value, span, every, every_in, print,
  InBounds, Climbs, denotes, match_cron_item_lem,
}

IsSolid-show : (n : ℕ) → n < 100 → IsSolid (show n)
IsSolid-show n h = plain-IsSolid (show n) (show-plain n h)

no_comma : (n : ℕ) → n < 100 → contains_rune (show n) b',' ≡ false
no_comma n h = (plain-contains (show n) (show-plain n h)).0

print-IsSolid : (min max : ℕ) (it : Item) → max < 100 → InBounds min max it → IsSolid (print it)
unfolding is_space
print-IsSolid min max (value n) m h = IsSolid-show n (omega arith)
print-IsSolid min max (span a b) m h =
    All-append _ (show a) (b'-' ∷ show b) (IsSolid-show a (omega arith))
      (refl, IsSolid-show b (omega arith))
print-IsSolid min max (every n) m h = (refl, (refl, IsSolid-show n (omega arith)))
print-IsSolid min max (every_in a b n) m h =
    All-append _ (show a ++ b'-' ∷ show b) (b'/' ∷ show n)
      (All-append _ (show a) (b'-' ∷ show b) (IsSolid-show a (omega arith))
        (refl, IsSolid-show b (omega arith)))
      (refl, IsSolid-show n (omega arith))

print-no_comma :
    (min max : ℕ) (it : Item)
    → max < 100
    → InBounds min max it
    → contains_rune (print it) b',' ≡ false
unfolding contains_rune
print-no_comma min max (value n) m h = no_comma n (omega arith)
print-no_comma min max (span a b) m h =
    contains_rune-append (show a) (b'-' ∷ show b) b',' ∙ ground (arith, no_comma a, no_comma b)
print-no_comma min max (every n) m h = no_comma n (omega arith)
print-no_comma min max (every_in a b n) m h =
    contains_rune-append (show a ++ b'-' ∷ show b) (b'/' ∷ show n) b','
    ∙ ground (
      arith,
      contains_rune-append (show a) (b'-' ∷ show b) b',',
      no_comma a,
      no_comma b,
      no_comma n,
    )

-- A printed item, whatever follows it, is neither empty nor the star alone.
print-ne :
    (it : Item) (t : Text)
    → (text_eq (print it ++ t) [] ≡ false) × (text_eq (print it ++ t) (codes "*") ≡ false)
unfolding text_eq
print-ne (value n) t = (ground arith, ground arith)
print-ne (span a b) t = (ground arith, ground arith)
print-ne (every n) t = (refl, refl)
print-ne (every_in a b n) t = (ground arith, ground arith)

print-ne-nil : (it : Item) → text_eq (print it) [] ≡ false
print-ne-nil it = subst (λ s. text_eq s [] ≡ false) (append-nil (print it)) (print-ne it []).0

join-ne :
    (it : Item) (its : List Item)
    → text_eq (join (b',' ∷ []) (map print (it ∷ its))) (codes "*") ≡ false
unfolding join
join-ne it [] =
    subst (λ s. text_eq s (codes "*") ≡ false) (append-nil (print it)) (print-ne it []).1
join-ne it (next ∷ its) = (print-ne it _).1

match_items_lem :
    (min max v : ℕ) (its : List Item)
    → max < 100
    → All (InBounds min max) its
    → All (Climbs min max) its
    → match_items (map print its) v min max ≡ any (λ it. denotes min max it v) its
unfolding match_items
match_items_lem min max v [] m h c = refl
match_items_lem min max v (it ∷ its) m (h, k) (c, cs) =
    rw (trim_space_of_IsSolid (print it) (print-IsSolid min max it m h)) (
      ap₂ (λ a b. (not (text_eq (print it) []) && a) || b) (match_cron_item_lem min max v it m h c)
        (match_items_lem min max v its m k cs)
      ∙ rw (print-ne-nil it) refl)

All-no_comma :
    (min max : ℕ) (its : List Item)
    → max < 100
    → All (InBounds min max) its
    → All (λ s. contains_rune s b',' ≡ false) (map print its)
All-no_comma min max [] m h = tt
All-no_comma min max (it ∷ its) m (h, k) =
    (print-no_comma min max it m h, All-no_comma min max its m k)

-- A field written as numbers, ranges and steps with commas between them, whose numbers lie between
-- the field's bounds, themselves below 100, whose steps are 1 to 99, and in which no range of weekdays
-- with a step runs over the end of the week, matches exactly the values that one of its items stands
-- for.
pub match_field-printed :
    (min max v : ℕ) (it : Item) (its : List Item)
    → max < 100
    → All (InBounds min max) (it ∷ its)
    → All (Climbs min max) (it ∷ its)
    → match_field (join (b',' ∷ []) (map print (it ∷ its))) v min max
      ≡ any (λ i. denotes min max i v) (it ∷ its)
unfolding match_field
match_field-printed min max v it its m h c = rw (join-ne it its) (
    ap (λ parts. match_items parts v min max)
      (split_on-join b',' (print it) (map print its) (All-no_comma min max (it ∷ its) m h))
    ∙ match_items_lem min max v (it ∷ its) m h c)
