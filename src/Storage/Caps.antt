-- ===== src/Storage/Caps.antt =====
-- storage/storage.go: the limits on what is written and read.
use xlgo_core.Base.{
  ℕ, zero, suc, ◌+◌, ◌≤◌, ◌<◌, ◌≡◌, refl, ap, ◌∙◌, subst, List, [], ◌∷◌, Bool, false, ◌==◌, ltb,
  leb, none, some, length, take, All, arith, inl, inr, Bool-cases, length-append, length-take,
  lt→ltb, ltb-false→le,
}
use xlgo_core.Base.Text.{Text}
use xlgo_core.Base.Int.{pos}
use xlgo_core.Storage.{
  UploadPolicy, Source, bytes_of, copy_capped, copy_upload, copy_under, read_capped, read_next,
}
use xlgo_core.Storage.Paths.{upload_too_large}

-- Every read brings something, as `io.Reader` asks of a source that is not at its end.
abbrev pub Reads : List Text → Type 0
Reads = All (λ c. 1 ≤ length c)

leb-false : (a b : ℕ) → b < a → leb a b ≡ false
leb-false a b h = ground arith

ltb-false : (a b : ℕ) → b ≤ a → ltb a b ≡ false
ltb-false a b h = ground arith

capped_whole :
    (max count : ℕ) (cs : List Text)
    → Reads cs
    → count + length (bytes_of cs) ≤ max
    → copy_capped max count cs false ≡ record { written = bytes_of cs; fault = none }
unfolding copy_capped read_next
capped_whole max count [] h k = ground arith
capped_whole max count (c ∷ cs) (p, h) k =
    let all = length-append c (bytes_of cs) in
    rw
      (
        leb-false max count (omega (arith, p, all, k)),
        ltb-false max (count + length c) (omega (arith, all, k)),
        capped_whole max (count + length c) cs h (omega (arith, all, k)),
      )
      refl

capped_over :
    (max count : ℕ) (cs : List Text) (broken : Bool)
    → Reads cs
    → count ≤ max
    → max < count + length (bytes_of cs)
    → (copy_capped max count cs broken).fault ≡ some upload_too_large
unfolding copy_capped read_next
capped_over max count [] broken h k o = absurd (omega (arith, k, o))
capped_over max count (c ∷ cs) broken (p, h) k o = elim (Bool-cases (leb max count)) [
  | inl full ↦ rw (full, some_bytes p) refl
  | inr room ↦ elim (Bool-cases (ltb max (count + length c))) [
    | inl over ↦ rw (room, over) refl
    | inr fits ↦
        rw (room, fits)
          (capped_over max (count + length c) cs broken h (ltb-false→le max (count + length c) fits)
            (omega (arith, length-append c (bytes_of cs), o)))
  ]
]
  where
    some_bytes : 1 ≤ length c → (length c == 0) ≡ false
    some_bytes h = ground arith

capped_bound :
    (max count : ℕ) (cs : List Text) (broken : Bool)
    → count ≤ max
    → count + length (copy_capped max count cs broken).written ≤ max
unfolding copy_capped read_next
capped_bound max count [] broken k = omega (arith, k)
capped_bound max count (c ∷ cs) broken k = elim (Bool-cases (leb max count)) [
  | inl full ↦ rw full (omega (arith, k))
  | inr room ↦ elim (Bool-cases (ltb max (count + length c))) [
    | inl over ↦ rw (room, over) (omega (arith, k))
    | inr fits ↦
        rw (room, fits)
          (omega (
            arith,
            capped_bound max (count + length c) cs broken
                (ltb-false→le max (count + length c) fits),
            length-append c (copy_capped max (count + length c) cs broken).written,
          ))
  ]
]

suc_not_zero : (n : ℕ) → (suc n == 0) ≡ false
suc_not_zero n = ground arith

-- Under a limit above 0, from a source whose reads bring something and which does not break off: an
-- upload never writes more bytes than the limit; all of the source is written if it is within the limit,
-- and the error is `ErrUploadTooLarge` if it is longer, whatever size the client has declared.
pub copy_upload_within :
    (p : UploadPolicy) (src : Source) (max : ℕ)
    → p.max_size_bytes ≡ pos (suc max)
    → Reads src.chunks
    → src.broken ≡ false
    → (length (copy_upload p src).written ≤ suc max)
      × (length (bytes_of src.chunks) ≤ suc max
          → copy_upload p src ≡ record { written = bytes_of src.chunks; fault = none })
      × (suc max < length (bytes_of src.chunks) → (copy_upload p src).fault ≡ some upload_too_large)
unfolding copy_upload copy_under
copy_upload_within p src max e h whole =
    let plus : (n : ℕ) → 0 + n ≡ n = λ n. omega arith in
    rw (copy_upload, copy_under, e, suc_not_zero max)
      (
        subst (λ n. n ≤ suc max)
            (plus (length (copy_capped (suc max) 0 src.chunks src.broken).written))
            (capped_bound (suc max) 0 src.chunks src.broken (omega arith)),
        λ k.
            ap (copy_capped (suc max) 0 src.chunks) whole
            ∙ capped_whole (suc max) 0 src.chunks h (omega (arith, k)),
        λ k. capped_over (suc max) 0 src.chunks src.broken h (omega arith) (omega (arith, k)),
      )

take_all : (n : ℕ) (s : Text) → length s ≤ n → take n s ≡ s
take_all zero [] h = refl
take_all zero (c ∷ s) h = absurd (omega (arith, h))
take_all (suc n) [] h = refl
take_all (suc n) (c ∷ s) h = ap (λ r. c ∷ r) (take_all n s (omega (arith, h)))

-- `Get` gives all of the contents if they are within the limit, and none of them if they are longer.
pub read_capped_within :
    (max : ℕ) (content : Text)
    → (length content ≤ suc max → read_capped (pos (suc max)) content ≡ some content)
      × (suc max < length content → read_capped (pos (suc max)) content ≡ none)
unfolding read_capped
read_capped_within max content =
    let got = length-take (suc (suc max)) content in
    (
      λ k.
          rw
            (
              take_all (suc (suc max)) content (omega (arith, k)),
              ltb-false (suc max) (length content) k,
            )
            refl,
      λ k.
          rw (lt→ltb (suc max) (length (take (suc (suc max)) content)) (omega (arith, got, k)))
            refl,
    )
