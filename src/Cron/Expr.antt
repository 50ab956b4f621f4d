-- ===== src/Cron/Expr.antt =====
-- cron/cron.go: matching and validating the fields of a cron expression. Texts are lists of code
-- points, a field's bounds and a moment's values are natural numbers, parsed numbers are integers.
pub mod Laws
pub mod Fields
pub mod Meaning
pub mod Printed
use xlgo_core.Base.{
  ℕ, ◌-◌, ◌%◌, List, [], ◌∷◌, Bool, true, false, not, ◌&&◌, ◌||◌, Option, none, some, leb, ltb,
  ◌==◌, if◌then◌else◌, Result, ok, err, ◌>>=◌, length,
}
use xlgo_core.Base.Text.{Text, codes, text_eq, split_on, trim_space, cut, contains_rune, fields}
use xlgo_core.Base.Int.{ℤ, pos, negsuc, pos_part, leb_ℤ, ltb_ℤ}
use xlgo_core.Base.Atoi.{atoi}

-- The errors of the parser, by their messages.
pub data CronError : Type 0 where
  invalid_range ambiguous_range out_of_bounds bad_step not_a_number empty_item : CronError
  field_count : ℕ → CronError

unfoldable pub is_weekday : ℕ → ℕ → Bool
is_weekday min max = min == 0 && max == 6

abbrev eq_ℤ : ℤ → ℤ → Bool
eq_ℤ a b = leb_ℤ a b && leb_ℤ b a

-- 7 is Sunday, as 0 is.
abbrev sunday : ℤ → ℤ
sunday v = if eq_ℤ v (pos 7) then pos 0 else v

abbrev within : ℕ → ℕ → ℤ → Bool
within min max v = leb_ℤ (pos min) v && leb_ℤ v (pos max)

-- The last test of `parseCronRange`.
unfoldable pub check_range : ℕ → ℕ → ℤ → ℤ → Result CronError (ℕ × ℕ)
check_range min max lo hi =
    if within min max lo && within min max hi
    then ok (pos_part lo, pos_part hi)
    else err out_of_bounds

-- `parseCronRange` once both ends are numbers.
unfoldable pub normalize_range : ℕ → ℕ → ℤ → ℤ → Result CronError (ℕ × ℕ)
unfolding is_weekday check_range
normalize_range min max lo hi =
    if is_weekday min max
    then (if eq_ℤ (sunday lo) (sunday hi) && not (eq_ℤ lo hi)
        then err ambiguous_range
        else check_range min max (sunday lo) (sunday hi))
    else check_range min max lo hi

both : Option ℤ → Option ℤ → ℕ → ℕ → Result CronError (ℕ × ℕ)
unfolding normalize_range
both (some lo) (some hi) min max = normalize_range min max lo hi
both _ _ min max = err invalid_range

parse_halves : Option (Text × Text) → ℕ → ℕ → Result CronError (ℕ × ℕ)
unfolding both trim_space atoi
parse_halves none min max = err invalid_range
parse_halves (some (a, b)) min max = both (atoi (trim_space a)) (atoi (trim_space b)) min max

unfoldable pub parse_cron_range : Text → ℕ → ℕ → Result CronError (ℕ × ℕ)
unfolding cut parse_halves
parse_cron_range s min max = parse_halves (cut b'-' s) min max

-- The step of an item with a slash: a positive number.
positive_step : Option ℤ → Option ℕ
positive_step none = none
positive_step (some v) = if leb_ℤ v (pos 0) then none else some (pos_part v)

unfoldable pub parse_step : Text → Option ℕ
unfolding atoi positive_step
parse_step s = positive_step (atoi s)

-- The range that a step walks.
unfoldable pub step_base : Text → ℕ → ℕ → Result CronError (ℕ × ℕ)
unfolding text_eq parse_cron_range
step_base base min max =
    if text_eq base (codes "*") then ok (min, max) else parse_cron_range base min max

in_steps : ℕ → ℕ → Result CronError (ℕ × ℕ) → Bool
in_steps value step (err e) = false
in_steps value step (ok (lo, hi)) = leb lo value && leb value hi && ((value - lo) % step == 0)

in_range : ℕ → ℕ → ℕ → Result CronError (ℕ × ℕ) → Bool
unfolding is_weekday
in_range value min max (err e) = false
in_range value min max (ok (lo, hi)) =
    if is_weekday min max && ltb hi lo
    then (leb lo value && leb value max) || (leb min value && leb value hi)
    else leb lo value && leb value hi

is_value : ℕ → ℕ → ℕ → Option ℤ → Bool
unfolding is_weekday
is_value value min max none = false
is_value value min max (some v) =
    let v' = if is_weekday min max then sunday v else v in
    if within min max v' then pos_part v' == value else false

-- The branch on the slash, with the step once it is read.
match_step : Option ℕ → Result CronError (ℕ × ℕ) → ℕ → Bool
unfolding in_steps
match_step none r value = false
match_step (some step) r value = in_steps value step r

match_cut : Option (Text × Text) → Text → ℕ → ℕ → ℕ → Bool
unfolding match_step parse_step step_base contains_rune parse_cron_range in_range atoi is_value
match_cut (some (base, s)) item value min max =
    match_step (parse_step s) (step_base base min max) value
match_cut none item value min max =
    if contains_rune item b'-'
    then in_range value min max (parse_cron_range item min max)
    else is_value value min max (atoi item)

unfoldable pub match_cron_item : Text → ℕ → ℕ → ℕ → Bool
unfolding cut match_cut
match_cron_item item value min max = match_cut (cut b'/' item) item value min max

-- The loop over the items of a field.
unfoldable pub match_items : List Text → ℕ → ℕ → ℕ → Bool
unfolding match_cron_item trim_space
match_items [] value min max = false
match_items (raw ∷ raws) value min max =
    let item = trim_space raw in
    (not (text_eq item []) && match_cron_item item value min max) || match_items raws value min max

unfoldable pub match_field : Text → ℕ → ℕ → ℕ → Bool
unfolding text_eq split_on match_items
match_field field value min max =
    if text_eq field (codes "*") then true else match_items (split_on b',' field) value min max

abbrev discard {ℓ} : {A : Type ℓ} → Result CronError A → Result CronError (Unit {0})
discard (ok a) = ok tt
discard (err e) = err e

check_value : ℕ → ℕ → Option ℤ → Result CronError (Unit {0})
unfolding is_weekday
check_value min max none = err not_a_number
check_value min max (some v) =
    let v' = if is_weekday min max then sunday v else v in
    if within min max v' then ok tt else err out_of_bounds

validate_step : Option ℕ → Result CronError (ℕ × ℕ) → Result CronError (Unit {0})
validate_step none r = err bad_step
validate_step (some step) r = discard r

validate_cut : Option (Text × Text) → Text → ℕ → ℕ → Result CronError (Unit {0})
unfolding validate_step parse_step step_base contains_rune parse_cron_range atoi check_value
validate_cut (some (base, s)) item min max = validate_step (parse_step s) (step_base base min max)
validate_cut none item min max =
    if contains_rune item b'-'
    then discard (parse_cron_range item min max)
    else check_value min max (atoi item)

unfoldable pub validate_cron_item : Text → ℕ → ℕ → Result CronError (Unit {0})
unfolding cut validate_cut
validate_cron_item item min max = validate_cut (cut b'/' item) item min max

unfoldable pub validate_items : List Text → ℕ → ℕ → Result CronError (Unit {0})
unfolding validate_cron_item trim_space text_eq
validate_items [] min max = ok tt
validate_items (raw ∷ raws) min max =
    let item = trim_space raw in
    if text_eq item [] then err empty_item else elim (validate_cron_item item min max) [
      | err e ↦ err e
      | ok u ↦ validate_items raws min max
    ]

unfoldable pub validate_cron_field : Text → ℕ → ℕ → Result CronError (Unit {0})
unfolding text_eq split_on validate_items
validate_cron_field field min max =
    if text_eq field (codes "*") then ok tt else validate_items (split_on b',' field) min max

pub record FullCronSchedule : Type 0 where
  pub minute : Text
  pub hour : Text
  pub day : Text
  pub month : Text
  pub weekday : Text

-- `ParseCronStrict` on the fields of the expression.
unfoldable pub parse_fields : List Text → Result CronError FullCronSchedule
parse_fields (m ∷ h ∷ d ∷ mo ∷ w ∷ []) = do
  _ ← validate_cron_field m 0 59
  _ ← validate_cron_field h 0 23
  _ ← validate_cron_field d 1 31
  _ ← validate_cron_field mo 1 12
  _ ← validate_cron_field w 0 6
  ok (record { minute = m; hour = h; day = d; month = mo; weekday = w })
parse_fields fs = err (field_count (length fs))

unfoldable pub parse_cron_strict : Text → Result CronError FullCronSchedule
unfolding fields parse_fields validate_cron_field
parse_cron_strict expr = parse_fields (fields expr)

abbrev pub every_minute : FullCronSchedule
every_minute = record {
  minute = codes "*";
  hour = codes "*";
  day = codes "*";
  month = codes "*";
  weekday = codes "*";
}

unfoldable pub parse_cron_or_default : Text → FullCronSchedule
unfolding parse_cron_strict
parse_cron_or_default expr = elim (parse_cron_strict expr) [ ok s ↦ s | err e ↦ every_minute ]
