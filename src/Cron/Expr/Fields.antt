-- ===== src/Cron/Expr/Fields.antt =====
-- cron/cron.go: whole fields, `ParseCronStrict`, and expressions that are accepted and never fire.
use xlgo_core.Base.{
  ℕ, ◌<◌, ◌≡◌, refl, ap, List, [], ◌∷◌, false, Result, ok, ◌>>=◌, arith, ◌↔◌, subst, ◌∙◌, ap₂,
}
use xlgo_core.Base.Text.{Text, fields}
use xlgo_core.Cron.Expr.{
  CronError, is_weekday, validate_cut, validate_step, match_cron_item, validate_cron_item,
  validate_cron_field, FullCronSchedule, parse_fields, parse_cron_strict,
}
use xlgo_core.Cron.Expr.Meaning.{
  Item, value, span, every, every_in, show, range_text, print, InBounds, parse_cron_range_lem,
  parse_step-show, range-no_slash, range-dash, span_lem, step_base-range, every_in_lem,
}
use xlgo_core.Base.Text.Laws.{cut-append, cut-none}

module _ (s : FullCronSchedule) where
  -- Each field of a schedule passes the validation of its own bounds.
  pub record IsValid : Type 0 where
    pub minute : validate_cron_field s.minute 0 59 ≡ ok tt
    pub hour : validate_cron_field s.hour 0 23 ≡ ok tt
    pub day : validate_cron_field s.day 1 31 ≡ ok tt
    pub month : validate_cron_field s.month 1 12 ≡ ok tt
    pub weekday : validate_cron_field s.weekday 0 6 ≡ ok tt

  abbrev pub to_list : List Text
  to_list = s.minute ∷ s.hour ∷ s.day ∷ s.month ∷ s.weekday ∷ []

-- A chain of five checks succeeds only if each does.
checks-eq-ok :
    (a b c d f : Result CronError (Unit {0})) {x s : FullCronSchedule}
    → (a >>= λ _. b >>= λ _. c >>= λ _. d >>= λ _. f >>= λ _. ok x) ≡ ok s
    → (a ≡ ok tt) × (b ≡ ok tt) × (c ≡ ok tt) × (d ≡ ok tt) × (f ≡ ok tt) × (x ≡ s)
checks-eq-ok (ok _) (ok _) (ok _) (ok _) (ok _) e = (refl, refl, refl, refl, refl, cc)
checks-eq-ok _ _ _ _ _ e = cc

parse_fields_sound :
    (fs : List Text) (s : FullCronSchedule) → parse_fields fs ≡ ok s → (fs ≡ to_list s) × IsValid s
unfolding parse_fields
parse_fields_sound (m ∷ h ∷ d ∷ mo ∷ w ∷ []) s e =
    let (vm, vh, vd, vo, vw, same) =
      checks-eq-ok (validate_cron_field m 0 59) (validate_cron_field h 0 23)
        (validate_cron_field d 1 31) (validate_cron_field mo 1 12) (validate_cron_field w 0 6) e in
    (
      ap to_list same,
      subst IsValid same (record { minute = vm; hour = vh; day = vd; month = vo; weekday = vw }),
    )
parse_fields_sound _ s e = cc

parse_fields_complete : (s : FullCronSchedule) → IsValid s → parse_fields (to_list s) ≡ ok s
unfolding parse_fields
parse_fields_complete s v = rw (v.minute, v.hour, v.day, v.month, v.weekday) refl

-- The strict parser succeeds exactly on the expressions of five fields that each pass validation
-- with their bounds, and keeps the fields as they are.
pub parse_cron_strict_iff :
    (expr : Text) (s : FullCronSchedule)
    → (parse_cron_strict expr ≡ ok s) ↔ ((fields expr ≡ to_list s) × IsValid s)
unfolding parse_cron_strict
parse_cron_strict_iff expr s =
    (parse_fields_sound (fields expr) s, λ (e, v). rw e (parse_fields_complete s v))

-- A range that descends, with a step or, outside the weekday field, without one
abbrev pub Descends : ℕ → ℕ → Item → Type 0
Descends min max (span a b) = (b < a) × (is_weekday min max ≡ false)
Descends min max (every_in a b n) = b < a
Descends min max _ = ⊥

validate_cron_item-print :
    (min max : ℕ) (it : Item)
    → max < 100
    → InBounds min max it
    → Descends min max it
    → validate_cron_item (print it) min max ≡ ok tt
unfolding validate_cron_item validate_cut validate_step
validate_cron_item-print min max (value n) m h d = absurd d
validate_cron_item-print min max (every n) m h d = absurd d
validate_cron_item-print min max (span a b) m h d =
    ap (λ o. validate_cut o (range_text a b) min max)
      (cut-none b'/' (range_text a b) (range-no_slash a b (omega arith) (omega arith)))
    ∙ rw (range-dash a b) (rw (parse_cron_range_lem min max a b m h) refl)
validate_cron_item-print min max (every_in a b n) m (h, k, k') d =
    ap (λ o. validate_cut o (print (every_in a b n)) min max)
      (cut-append b'/' (range_text a b) (show n) (range-no_slash a b (omega arith) (omega arith)))
    ∙ ap₂ (λ o r. validate_step o r) (parse_step-show n k k') (step_base-range min max 0 a b m h)

-- In a field whose bounds are below 100, a range whose ends are in bounds but descend passes the
-- validation, and matches no value at all: outside the weekday field without a step, and in every
-- field with a step of 1 to 99.
pub descending_never :
    (min max : ℕ) (it : Item)
    → max < 100
    → InBounds min max it
    → Descends min max it
    → (validate_cron_item (print it) min max ≡ ok tt)
      × ((v : ℕ) → match_cron_item (print it) v min max ≡ false)
descending_never min max (value n) m h d = absurd d
descending_never min max (every n) m h d = absurd d
descending_never min max (span a b) m h d = (
  validate_cron_item-print min max (span a b) m h d,
  λ v. span_lem min max v a b m h ∙ ground (arith, d),
)
descending_never min max (every_in a b n) m h d = (
  validate_cron_item-print min max (every_in a b n) m h d,
  λ v. every_in_lem min max v a b n m h ∙ ground (arith, d),
)
