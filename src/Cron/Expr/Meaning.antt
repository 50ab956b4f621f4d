-- ===== src/Cron/Expr/Meaning.antt =====
-- cron/cron.go: the values that a field written from items matches.
use xlgo_core.Base.{
  sym, ◌⊎◌, inl, inr, ℕ, zero, suc, ◌+◌, ◌-◌, ◌/◌, ◌%◌, ◌≤◌, ◌<◌, ◌≡◌, refl, ◌∙◌, ap, ap₂, [], ◌∷◌,
  ◌++◌, Bool, true, false, not, ◌&&◌, ◌||◌, Option, none, some, leb, ltb, ◌==◌, if◌then◌else◌, ok,
  arith,
}
use xlgo_core.Base.Text.{Text, codes, text_eq, trim_space, cut, contains_rune, is_space}
use xlgo_core.Base.Text.Laws.{
  IsSolid, trim_space_of_IsSolid, contains_rune-append, cut-append, cut-none,
}
use xlgo_core.Base.Int.{ℤ, pos, negsuc}
use xlgo_core.Base.Atoi.{atoi}
use xlgo_core.Cron.Expr.{
  is_weekday, parse_cron_range, normalize_range, both, parse_halves, positive_step, parse_step,
  step_base, in_steps, in_range, is_value, match_step, match_cut, match_cron_item,
}

-- A number below 100 in decimal.
abbrev pub show : ℕ → Text
show n = if ltb n 10 then (b'0' + n) ∷ [] else (b'0' + n / 10) ∷ (b'0' + n % 10) ∷ []

-- A test that every number under a bound passes.
passes_under : (ℕ → Bool) → ℕ → Bool
passes_under test zero = true
passes_under test (suc bound) = passes_under test bound && test bound

passes_under_sound :
    (test : ℕ → Bool) (bound n : ℕ) → n < bound → passes_under test bound ≡ true → test n ≡ true
unfolding passes_under
passes_under_sound test zero n small passed = absurd (omega arith)
passes_under_sound test (suc bound) n small passed = ground (arith, passes_under_sound test bound n)

reads : Option ℤ → ℕ → Bool
reads (some (pos m)) n = m == n
reads (some (negsuc m)) n = false
reads none n = false

reads_sound : (o : Option ℤ) (n : ℕ) → reads o n ≡ true → o ≡ some (pos n)
unfolding reads
reads_sound (some (pos m)) n h = ground arith
reads_sound (some (negsuc m)) n h = cc
reads_sound none n h = cc

-- None of the characters that split an expression, and no space.
abbrev pub plain : Text → Bool
plain [] = true
plain (c ∷ s) =
    (not (c == b',') && (not (c == b'-') && (not (c == b'/') && not (is_space c)))) && plain s

atoi-show : (n : ℕ) → n < 100 → atoi (show n) ≡ some (pos n)
unfolding atoi passes_under reads
atoi-show n h = reads_sound _ n (passes_under_sound (λ k. reads (atoi (show k)) k) 100 n h refl)

pub show-plain : (n : ℕ) → n < 100 → plain (show n) ≡ true
unfolding passes_under is_space
show-plain n h = passes_under_sound (λ k. plain (show k)) 100 n h refl

pub plain-IsSolid : (s : Text) → plain s ≡ true → IsSolid s
plain-IsSolid [] h = tt
plain-IsSolid (c ∷ s) h = (ground arith, plain-IsSolid s (ground arith))

pub plain-contains :
    (s : Text)
    → plain s ≡ true
    → (contains_rune s b',' ≡ false)
      × (contains_rune s b'-' ≡ false)
      × (contains_rune s b'/' ≡ false)
unfolding contains_rune
plain-contains [] h = (refl, refl, refl)
plain-contains (c ∷ s) h = ground (arith, plain-contains s)

-- The items of a field: a number, a range, every n-th value, and every n-th value of a range.
pub data Item : Type 0 where
  value : ℕ → Item
  span : ℕ → ℕ → Item
  every : ℕ → Item
  every_in : ℕ → ℕ → ℕ → Item

abbrev pub range_text : ℕ → ℕ → Text
range_text a b = show a ++ b'-' ∷ show b

abbrev pub print : Item → Text
print (value n) = show n
print (span a b) = range_text a b
print (every n) = (b'*' ∷ []) ++ b'/' ∷ show n
print (every_in a b n) = range_text a b ++ b'/' ∷ show n

-- Numbers in bounds, and a step of at least 1.
abbrev pub InBounds : ℕ → ℕ → Item → Type 0
InBounds min max (value n) = (min ≤ n) × (n ≤ max)
InBounds min max (span a b) = (min ≤ a) × (a ≤ max) × (min ≤ b) × (b ≤ max)
InBounds min max (every n) = (1 ≤ n) × (n < 100)
InBounds min max (every_in a b n) =
    ((min ≤ a) × (a ≤ max) × (min ≤ b) × (b ≤ max)) × (1 ≤ n) × (n < 100)

-- A range of weekdays with a step does not run over the end of the week.
abbrev pub Climbs : ℕ → ℕ → Item → Type 0
Climbs min max (every_in a b n) = (is_weekday min max ≡ false) ⊎ (a ≤ b)
Climbs min max _ = Unit

-- The values that an item stands for; a range of weekdays may run over the end of the week, and its
-- steps go on there.
abbrev pub denotes : ℕ → ℕ → Item → ℕ → Bool
denotes min max (value n) v = n == v
denotes min max (span a b) v =
    if is_weekday min max && ltb b a
    then (leb a v && leb v max) || (leb min v && leb v b)
    else leb a v && leb v b
denotes min max (every n) v = leb min v && leb v max && ((v - min) % n == 0)
denotes min max (every_in a b n) v =
    if is_weekday min max && ltb b a
    then (leb a v && leb v max && ((v - a) % n == 0))
      || (leb min v && leb v b && ((v + (suc max - min) - a) % n == 0))
    else leb a v && leb v b && ((v - a) % n == 0)

normalize_range_lem :
    (min max a b : ℕ)
    → (min ≤ a) × (a ≤ max) × (min ≤ b) × (b ≤ max)
    → normalize_range min max (pos a) (pos b) ≡ ok (a, b)
unfolding normalize_range
normalize_range_lem min max a b h = ground arith

pub range-split : (a b : ℕ) → a < 100 → b < 100 → cut b'-' (range_text a b) ≡ some (show a, show b)
range-split a b h k = cut-append b'-' (show a) (show b) (plain-contains (show a) (show-plain a h)).1

trim-show : (n : ℕ) → n < 100 → trim_space (show n) ≡ show n
trim-show n h = trim_space_of_IsSolid (show n) (plain-IsSolid (show n) (show-plain n h))

pub parse_cron_range_lem :
    (min max a b : ℕ)
    → max < 100
    → (min ≤ a) × (a ≤ max) × (min ≤ b) × (b ≤ max)
    → parse_cron_range (range_text a b) min max ≡ ok (a, b)
unfolding parse_cron_range parse_halves both
parse_cron_range_lem min max a b m h =
    let ka : a < 100 = omega arith in
    let kb : b < 100 = omega arith in
    ap (λ o. parse_halves o min max) (range-split a b ka kb)
    ∙ ap₂ (λ s t. both (atoi s) (atoi t) min max) (trim-show a ka) (trim-show b kb)
    ∙ ap₂ (λ s t. both s t min max) (atoi-show a ka) (atoi-show b kb)
    ∙ normalize_range_lem min max a b h

pub parse_step-show : (n : ℕ) → 1 ≤ n → n < 100 → parse_step (show n) ≡ some n
unfolding parse_step
parse_step-show n h k = ap positive_step (atoi-show n k) ∙ ground arith

-- A range's text, and the star, hold no slash.
pub range-no_slash : (a b : ℕ) → a < 100 → b < 100 → contains_rune (range_text a b) b'/' ≡ false
unfolding contains_rune
range-no_slash a b h k =
    contains_rune-append (show a) (b'-' ∷ show b) b'/'
    ∙ ground
        (arith, plain-contains (show a) (show-plain a h), plain-contains (show b) (show-plain b k))

pub range-dash : (a b : ℕ) → contains_rune (range_text a b) b'-' ≡ true
unfolding contains_rune
range-dash a b = contains_rune-append (show a) (b'-' ∷ show b) b'-' ∙ ground arith

module _ (min max v : ℕ) where
  stepped_lem :
      (base : Text) (n lo hi : ℕ)
      → 1 ≤ n
      → n < 100
      → contains_rune base b'/' ≡ false
      → step_base base min max ≡ ok (lo, hi)
      → match_cron_item (base ++ b'/' ∷ show n) v min max
        ≡ (leb lo v && leb v hi && ((v - lo) % n == 0))
  unfolding match_cron_item match_cut match_step in_steps
  stepped_lem base n lo hi h k c e =
      ap (λ o. match_cut o (base ++ b'/' ∷ show n) v min max) (cut-append b'/' base (show n) c)
      ∙ ap₂ (λ o r. match_step o r v) (parse_step-show n h k) e

  is_value_lem : (n : ℕ) → min ≤ n → n ≤ max → is_value v min max (some (pos n)) ≡ (n == v)
  unfolding is_value
  is_value_lem n h k = ground arith

  value_lem : (n : ℕ) → n < 100 → min ≤ n → n ≤ max → match_cron_item (show n) v min max ≡ (n == v)
  unfolding match_cron_item match_cut
  value_lem n b h k =
      let (_, dash, slash) = plain-contains (show n) (show-plain n b) in
      ap (λ o. match_cut o (show n) v min max) (cut-none b'/' (show n) slash)
      ∙ (rw dash (ap (is_value v min max) (atoi-show n b) ∙ is_value_lem n h k))

  pub span_lem :
      (a b : ℕ)
      → max < 100
      → (min ≤ a) × (a ≤ max) × (min ≤ b) × (b ≤ max)
      → match_cron_item (range_text a b) v min max ≡ denotes min max (span a b) v
  unfolding match_cron_item match_cut in_range
  span_lem a b m h =
      ap (λ o. match_cut o (range_text a b) v min max)
        (cut-none b'/' (range_text a b) (range-no_slash a b (omega arith) (omega arith)))
      ∙ (rw (range-dash a b) (ap (in_range v min max) (parse_cron_range_lem min max a b m h)))

  pub step_base-range :
      (a b : ℕ)
      → max < 100
      → (min ≤ a) × (a ≤ max) × (min ≤ b) × (b ≤ max)
      → step_base (range_text a b) min max ≡ ok (a, b)
  unfolding step_base text_eq
  step_base-range a b m h =
      let e : text_eq (range_text a b) (codes "*") ≡ false = ground arith in
      rw e (parse_cron_range_lem min max a b m h)

  pub every_in_lem :
      (a b n : ℕ)
      → max < 100
      → InBounds min max (every_in a b n)
      → match_cron_item (print (every_in a b n)) v min max
        ≡ (leb a v && leb v b && ((v - a) % n == 0))
  every_in_lem a b n m (h, k, k') =
      stepped_lem (range_text a b) n a b k k' (range-no_slash a b (omega arith) (omega arith))
        (step_base-range a b m h)

  denotes-every_in :
      (a b n : ℕ)
      → Climbs min max (every_in a b n)
      → denotes min max (every_in a b n) v ≡ (leb a v && leb v b && ((v - a) % n == 0))
  denotes-every_in a b n (inl plain') = rw plain' refl
  denotes-every_in a b n (inr up) = ground (arith, up)

  -- An item matches a value exactly if it denotes the value.
  pub match_cron_item_lem :
      (it : Item)
      → max < 100
      → InBounds min max it
      → Climbs min max it
      → match_cron_item (print it) v min max ≡ denotes min max it v
  unfolding contains_rune step_base text_eq
  match_cron_item_lem (value n) m (h, k) c = value_lem n (omega arith) h k
  match_cron_item_lem (span a b) m h c = span_lem a b m h
  match_cron_item_lem (every n) m (h, k) c = stepped_lem (b'*' ∷ []) n min max h k refl refl
  match_cron_item_lem (every_in a b n) m h c =
      every_in_lem a b n m h ∙ sym (denotes-every_in a b n c)
