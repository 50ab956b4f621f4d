-- ===== src/Settings/Quoted.antt =====
-- config/config.go: that a server reads back what `postgresQuote` has written.
use xlgo_core.Base.{
  ℕ, ◌≡◌, refl, ap, ◌∙◌, [], ◌∷◌, ◌++◌, Bool, true, false, ◌||◌, ◌==◌, if◌then◌else◌, Option, none,
  some, arith, Bool-cases, inl, inr,
}
use mathlib.Core.List.{append_assoc}
use xlgo_core.Base.Text.{Text}
use xlgo_core.Settings.{escape, postgres_quote}

abbrev backslash : ℕ
backslash = b'\\'

abbrev quote : ℕ
quote = b'\''

read_before : ℕ → Option (Text × Text) → Option (Text × Text)
read_before c none = none
read_before c (some (s, t)) = some (c ∷ s, t)

-- The documented format of a quoted value, after its first quote: a backslash takes the next code point
-- as it is, and a quote ends the value. The rest comes with the value.
unfoldable pub read_rest : Bool → Text → Option (Text × Text)
unfolding read_before
read_rest escaped [] = none
read_rest true (c ∷ s) = read_before c (read_rest false s)
read_rest false (c ∷ s) = elim (c == quote) [
  | true ↦ some ([], s)
  | false ↦ elim (c == backslash) [
    | true ↦ read_rest true s
    | false ↦ read_before c (read_rest false s)
  ]
]

unfoldable pub read_quoted : Text → Option (Text × Text)
unfolding read_rest
read_quoted [] = none
read_quoted (c ∷ s) = if c == quote then read_rest false s else none

-- Both replacements at once
special : ℕ → Bool
special c = c == backslash || c == quote

escape_twice :
    (c : ℕ) (s : Text)
    → escape quote (escape backslash (c ∷ s)) ≡ (
        if special c
        then backslash ∷ c ∷ escape quote (escape backslash s)
        else c ∷ escape quote (escape backslash s))
unfolding escape special
escape_twice c s = ground arith

read_rest-special :
    (c : ℕ) (s : Text)
    → special c ≡ true
    → read_rest false (backslash ∷ c ∷ s) ≡ read_before c (read_rest false s)
unfolding read_rest
read_rest-special c s h = refl

read_rest-otherwise :
    (c : ℕ) (s : Text)
    → special c ≡ false
    → read_rest false (c ∷ s) ≡ read_before c (read_rest false s)
unfolding read_rest special
read_rest-otherwise c s h = ground (arith, h)

read_rest-escape :
    (s t : Text) → read_rest false (escape quote (escape backslash s) ++ quote ∷ t) ≡ some (s, t)
unfolding read_rest escape
read_rest-escape [] t = refl
read_rest-escape (c ∷ s) t = elim (Bool-cases (special c)) [
  | inl h ↦
      ap (λ z. read_rest false (z ++ quote ∷ t)) (rw h at (escape_twice c s))
      ∙ read_rest-special c (escape quote (escape backslash s) ++ quote ∷ t) h
      ∙ ap (read_before c) (read_rest-escape s t)
  | inr h ↦
      ap (λ z. read_rest false (z ++ quote ∷ t)) (rw h at (escape_twice c s))
      ∙ read_rest-otherwise c (escape quote (escape backslash s) ++ quote ∷ t) h
      ∙ ap (read_before c) (read_rest-escape s t)
]

-- Whatever the value holds, quotes and backslashes included, and whatever follows it: reading what
-- `postgresQuote` has written gives the value, and leaves exactly what follows.
pub read_quoted-postgres_quote : (s t : Text) → read_quoted (postgres_quote s ++ t) ≡ some (s, t)
unfolding read_quoted postgres_quote
read_quoted-postgres_quote s t =
    ap (read_rest false) (append_assoc (escape quote (escape backslash s)) (quote ∷ []) t)
    ∙ read_rest-escape s t
