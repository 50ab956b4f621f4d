-- ===== src/Storage/Refine.antt =====
-- storage/storage.go: what it is for a call on `LocalStorage` to keep to what the store promises.
use xlgo_core.Base.{
  ◌≡◌, inl, inr, refl, ap, subst, ◌∙◌, [], ◌∷◌, ◌++◌, false, if◌then◌else◌, arith, Bool-cases, none,
  some,
}
use xlgo_core.Base.Text.{Text, text_eq, text_eq_iff}
use xlgo_core.Base.Dict.{Dict, lookup, insert, delete, lookup-insert, lookup-delete}
use xlgo_core.Storage.Paths.{slash}
use xlgo_core.Storage.Paths.Anchor.{Below}
use xlgo_core.Storage.Local.{LocalStorage, Answers}
use xlgo_core.Storage.Store.{contents, Change, put, gone, Call, Answer, Promise, Changed}

text_eq_cancel : (p s t : Text) → text_eq (p ++ s) (p ++ t) ≡ text_eq s t
unfolding text_eq
text_eq_cancel [] s t = refl
text_eq_cancel (a ∷ p) s t = ground (arith, text_eq_cancel p s t)

same_key : (root k t : Text) → text_eq (root ++ slash ∷ k) (root ++ slash ∷ t) ≡ text_eq k t
unfolding text_eq
same_key root k t = text_eq_cancel root (slash ∷ k) (slash ∷ t) ∙ text_eq_cancel (slash ∷ []) k t

not_Below : (root dst q : Text) → Below root dst → ¬ Below root q → text_eq dst q ≡ false
not_Below root dst q b h = elim (Bool-cases (text_eq dst q)) [
  | inl same ↦ absurd (h (subst (Below root) ((text_eq_iff dst q).0 same) b))
  | inr other ↦ other
]

pub insert-Changed :
    (root dst key d : Text) (fs : Dict Text)
    → Below root dst
    → dst ≡ root ++ slash ∷ key
    → Changed root (put key d) fs (insert dst d fs)
insert-Changed root dst key d fs b e = (
  λ t.
      lookup-insert dst (root ++ slash ∷ t) d fs
      ∙ ap (λ c. if c then some d else lookup (root ++ slash ∷ t) fs)
          (ap (λ z. text_eq z (root ++ slash ∷ t)) e ∙ same_key root key t),
  λ q h.
      lookup-insert dst q d fs
      ∙ ap (λ c. if c then some d else lookup q fs) (not_Below root dst q b h),
)

pub delete-Changed :
    (root dst key : Text) (fs : Dict Text)
    → Below root dst
    → dst ≡ root ++ slash ∷ key
    → Changed root (gone key) fs (delete dst fs)
delete-Changed root dst key fs b e = (
  λ t.
      lookup-delete dst (root ++ slash ∷ t) fs
      ∙ ap (λ c. if c then none else lookup (root ++ slash ∷ t) fs)
          (ap (λ z. text_eq z (root ++ slash ∷ t)) e ∙ same_key root key t),
  λ q h.
      lookup-delete dst q fs ∙ ap (λ c. if c then none else lookup q fs) (not_Below root dst q b h),
)

-- A call has changed the files as the contents allow, and answers what the promise says.
abbrev pub Kept : LocalStorage → Answers → Call → Dict Text → Dict Text → Answer → Type 0
Kept l os c fs fs' a =
    (change : Change) × Changed l.root_abs change fs fs'
    × Promise l os c (contents l.root_abs fs) change a
