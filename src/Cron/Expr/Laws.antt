-- ===== src/Cron/Expr/Laws.antt =====
-- cron/cron.go: what matching and validating agree on.
use xlgo_core.Base.{
  ℕ, ◌≤◌, ◌≡◌, refl, Bool, true, false, not, ◌&&◌, Option, none, some, ◌==◌, if◌then◌else◌, Result,
  ok, err, arith, inl, inr, Bool-cases,
}
use xlgo_core.Base.Text.{Text, codes, text_eq, trim_space, cut, contains_rune}
use xlgo_core.Base.Int.{ℤ, pos, negsuc, pos_part}
use xlgo_core.Base.Atoi.{atoi}
use xlgo_core.Cron.Expr.{
  CronError, is_weekday, eq_ℤ, sunday, within, check_range, normalize_range, both, parse_halves,
  parse_cron_range, parse_step, step_base, in_steps, in_range, is_value, match_step, match_cut,
  validate_step, validate_cut, out_of_bounds, match_cron_item, discard, check_value,
  validate_cron_item,
}

-- Both ends of a range lie between the bounds.
abbrev Ends : ℕ → ℕ → Result CronError (ℕ × ℕ) → Type 0
Ends min max (err e) = Unit
Ends min max (ok (lo, hi)) = (min ≤ lo) × (lo ≤ max) × (min ≤ hi) × (hi ≤ max)

check_range-Ends : (min max : ℕ) (lo hi : ℤ) → Ends min max (check_range min max lo hi)
unfolding check_range
check_range-Ends min max (pos lo) (pos hi) = ground arith
check_range-Ends min max (pos lo) (negsuc hi) = ground arith
check_range-Ends min max (negsuc lo) hi = ground arith

if-Ends :
    (min max : ℕ) (b : Bool) (r q : Result CronError (ℕ × ℕ))
    → Ends min max r
    → Ends min max q
    → Ends min max (if b then r else q)
if-Ends min max true r q h k = h
if-Ends min max false r q h k = k

normalize_range-Ends : (min max : ℕ) (lo hi : ℤ) → Ends min max (normalize_range min max lo hi)
unfolding normalize_range
normalize_range-Ends min max lo hi =
    if-Ends min max (is_weekday min max) _ _
      (if-Ends min max (eq_ℤ (sunday lo) (sunday hi) && not (eq_ℤ lo hi)) _ _ tt
        (check_range-Ends min max (sunday lo) (sunday hi)))
      (check_range-Ends min max lo hi)

both-Ends : (a b : Option ℤ) (min max : ℕ) → Ends min max (both a b min max)
unfolding both
both-Ends none b min max = tt
both-Ends (some lo) none min max = tt
both-Ends (some lo) (some hi) min max = normalize_range-Ends min max lo hi

parse_halves-Ends : (o : Option (Text × Text)) (min max : ℕ) → Ends min max (parse_halves o min max)
unfolding parse_halves
parse_halves-Ends none min max = tt
parse_halves-Ends (some (a, b)) min max =
    both-Ends (atoi (trim_space a)) (atoi (trim_space b)) min max

parse_cron_range-Ends : (s : Text) (min max : ℕ) → Ends min max (parse_cron_range s min max)
unfolding parse_cron_range
parse_cron_range-Ends s min max = parse_halves-Ends (cut b'-' s) min max

step_base-Ends : (s : Text) (min max : ℕ) → min ≤ max → Ends min max (step_base s min max)
unfolding step_base
step_base-Ends s min max h = elim (Bool-cases (text_eq s (codes "*"))) [
  | inl e ↦ rw e (omega arith)
  | inr e ↦ rw e (parse_cron_range-Ends s min max)
]

in_steps-bounds :
    (value step min max : ℕ) (r : Result CronError (ℕ × ℕ))
    → Ends min max r
    → in_steps value step r ≡ true
    → (min ≤ value) × (value ≤ max)
unfolding in_steps
in_steps-bounds value step min max (err e) h m = cc
in_steps-bounds value step min max (ok (lo, hi)) h m = ground arith

in_range-bounds :
    (value min max : ℕ) (r : Result CronError (ℕ × ℕ))
    → Ends min max r
    → in_range value min max r ≡ true
    → (min ≤ value) × (value ≤ max)
unfolding in_range
in_range-bounds value min max (err e) h m = cc
in_range-bounds value min max (ok (lo, hi)) h m = ground arith

is_value-bounds :
    (value min max : ℕ) (o : Option ℤ)
    → is_value value min max o ≡ true
    → (min ≤ value) × (value ≤ max)
unfolding is_value
is_value-bounds value min max none m = cc
is_value-bounds value min max (some v) m = go (if is_weekday min max then sunday v else v) m
  where
    go :
        (w : ℤ)
        → (if within min max w then pos_part w == value else false) ≡ true
        → (min ≤ value) × (value ≤ max)
    go (pos n) e = ground arith
    go (negsuc n) e = ground arith

in_range-discard :
    (value min max : ℕ) (r : Result CronError (ℕ × ℕ))
    → in_range value min max r ≡ true
    → discard r ≡ ok tt
unfolding in_range
in_range-discard value min max (ok p) m = refl
in_range-discard value min max (err e) m = cc

is_value-check :
    (value min max : ℕ) (o : Option ℤ)
    → is_value value min max o ≡ true
    → check_value min max o ≡ ok tt
unfolding is_value check_value
is_value-check value min max none m = cc
is_value-check value min max (some v) m =
    go (within min max (if is_weekday min max then sunday v else v)) _ m
  where
    go :
        (b c : Bool)
        → (if b then c else false) ≡ true
        → ◌≡◌ {A = Result CronError (Unit {0})} (if b then ok tt else err out_of_bounds) (ok tt)
    go true c e = refl
    go false c e = cc

match_step_sound :
    (o : Option ℕ) (r : Result CronError (ℕ × ℕ)) (value min max : ℕ)
    → Ends min max r
    → match_step o r value ≡ true
    → (min ≤ value) × (value ≤ max) × (validate_step o r ≡ ok tt)
unfolding match_step validate_step
match_step_sound none r value min max h m = cc
match_step_sound (some step) (err e) value min max h m = cc
match_step_sound (some step) (ok p) value min max h m =
    let (low, high) = in_steps-bounds value step min max (ok p) h m in (low, high, refl)

match_cut_sound :
    (o : Option (Text × Text)) (item : Text) (value min max : ℕ)
    → min ≤ max
    → match_cut o item value min max ≡ true
    → (min ≤ value) × (value ≤ max) × (validate_cut o item min max ≡ ok tt)
unfolding match_cut validate_cut
match_cut_sound (some (base, s)) item value min max h m =
    match_step_sound (parse_step s) _ value min max (step_base-Ends base min max h) m
match_cut_sound none item value min max h m = elim (Bool-cases (contains_rune item b'-')) [
  | inl f ↦
      let n : in_range value min max (parse_cron_range item min max) ≡ true = ground arith in
      let (low, high) = in_range-bounds value min max _ (parse_cron_range-Ends item min max) n in
      (low, high, rw f (in_range-discard value min max _ n))
  | inr f ↦
      let n : is_value value min max (atoi item) ≡ true = ground arith in
      let (low, high) = is_value-bounds value min max _ n in
      (low, high, rw f (is_value-check value min max _ n))
]

-- An item matches only values between its field's bounds, and only if the strict parser accepts
-- the item: what validation refuses never fires.
pub match_cron_item_sound :
    (item : Text) (value min max : ℕ)
    → min ≤ max
    → match_cron_item item value min max ≡ true
    → (min ≤ value) × (value ≤ max) × (validate_cron_item item min max ≡ ok tt)
unfolding match_cron_item validate_cron_item
match_cron_item_sound item value min max h m =
    match_cut_sound (cut b'/' item) item value min max h m
