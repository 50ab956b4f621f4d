-- ===== src/Storage/Whole.antt =====
-- storage/storage.go: that an upload which ends well can be read again, whole.
pub mod Again
use xlgo_core.Base.{
  ℕ, zero, suc, ◌+◌, ◌-◌, ◌≤◌, ◌≡◌, ◌≢◌, refl, sym, ap, ap₂, subst, ◌∙◌, List, [], ◌∷◌, ◌++◌, Bool,
  true, false, not, ◌&&◌, ◌||◌, if◌then◌else◌, All, arith, Bool-cases, inl, inr, Result, ok, err,
  none, some, Option, length, take, drop, ltb, leb, take-append-drop, ◌==◌, map, length-drop,
  ltb→lt, ltb-false→le, ok_inj,
}
use xlgo_core.Base.Int.{ℤ, pos, negsuc}
use xlgo_core.Base.Text.{Text, contains_rune}
use xlgo_core.Base.Dict.{Dict, lookup, insert, lookup-insert}
use xlgo_core.Storage.{
  Source, Copied, UploadPolicy, bytes_of, drop_bytes, with_head, sniff_upload_mime, copy_capped,
  copy_all, copy_upload, copy_under, read_next, read_capped, contains_string, main_type,
  mime_sniff_prefix_len, sniff_for,
}
use xlgo_core.Storage.Caps.{Reads}
use xlgo_core.Storage.Paths.{
  StorageError, sniff_failed, invalid_path, upload_too_large, save_failed,
}

drop-append : (n : ℕ) (s t : Text) → drop n (s ++ t) ≡ drop n s ++ drop (n - length s) t
drop-append zero s t =
    let none_left : 0 ≡ 0 - length s = omega arith in ap (λ m. s ++ drop m t) none_left
drop-append (suc n) [] t = let same : suc n ≡ suc n - 0 = omega arith in ap (λ m. drop m t) same
drop-append (suc n) (c ∷ s) t =
    let same : n - length s ≡ suc n - suc (length s) = omega arith in
    drop-append n s t ∙ ap (λ m. drop n s ++ drop m t) same

drop_none : (n : ℕ) (s : Text) → length s ≤ n → drop n s ≡ []
drop_none zero [] h = refl
drop_none zero (c ∷ s) h = absurd (omega (arith, h))
drop_none (suc n) [] h = refl
drop_none (suc n) (c ∷ s) h = drop_none n s (omega (arith, h))

bytes_of-drop : (n : ℕ) (cs : List Text) → bytes_of (drop_bytes n cs) ≡ drop n (bytes_of cs)
unfolding drop_bytes
bytes_of-drop zero [] = refl
bytes_of-drop (suc n) [] = refl
bytes_of-drop n (c ∷ cs) = elim (Bool-cases (ltb n (length c))) [
  | inl inside ↦
      let none_left : n - length c ≡ 0 = omega (arith, ltb→lt n (length c) inside) in
      rw (drop_bytes, inside)
        (sym (drop-append n c (bytes_of cs) ∙ ap (λ m. drop n c ++ drop m (bytes_of cs)) none_left))
  | inr past ↦
      rw (drop_bytes, past)
        (bytes_of-drop (n - length c) cs
          ∙ sym (
              drop-append n c (bytes_of cs)
              ∙ ap (λ z. z ++ drop (n - length c) (bytes_of cs))
                  (drop_none n c (ltb-false→le n (length c) past))))
]

drop_bytes-Reads : (n : ℕ) (cs : List Text) → Reads cs → Reads (drop_bytes n cs)
unfolding drop_bytes
drop_bytes-Reads n [] h = tt
drop_bytes-Reads n (c ∷ cs) (p, h) = elim (Bool-cases (ltb n (length c))) [
  | inl inside ↦
      rw (All, drop_bytes, inside) (omega (arith, length-drop n c, ltb→lt n (length c) inside), h)
  | inr past ↦ rw (All, drop_bytes, past) (drop_bytes-Reads (n - length c) cs h)
]

with_head-bytes :
    (head : Text) (rest : List Text) → bytes_of (with_head head rest) ≡ head ++ bytes_of rest
unfolding with_head
with_head-bytes [] rest = refl
with_head-bytes (c ∷ s) rest = refl

with_head-Reads : (head : Text) (rest : List Text) → Reads rest → Reads (with_head head rest)
unfolding with_head
with_head-Reads [] rest h = h
with_head-Reads (c ∷ s) rest h = (omega arith, h)

sniffed :
    (a b : Bool) (s t : Source)
    → (if a then err sniff_failed else if b then ok s else err invalid_path) ≡ ok t
    → s ≡ t
sniffed true b s t h = absurd (cc)
sniffed false true s t h = ok_inj {E = StorageError} s t h
sniffed false false s t h = absurd (cc)

pub sniff_for-same :
    (detect : Text → Text) (ms : List Text) (src t : Source)
    → Reads src.chunks
    → sniff_for detect ms src ≡ ok t
    → (bytes_of t.chunks ≡ bytes_of src.chunks) × Reads t.chunks
unfolding sniff_for
sniff_for-same detect [] src t h e =
    let same = ok_inj {E = StorageError} src t e in
    (ap (λ z. bytes_of z.chunks) (sym same), subst (λ z. Reads z.chunks) same h)
sniff_for-same detect (m ∷ ms) src t h e =
    let head = take mime_sniff_prefix_len (bytes_of src.chunks) in
    let rest = drop_bytes mime_sniff_prefix_len src.chunks in
    let same =
      sniffed (src.broken && ltb (length head) mime_sniff_prefix_len)
        (contains_string (map main_type (m ∷ ms)) (main_type (detect head)))
        (record src { chunks = with_head head rest }) t e in
    (
      ap (λ z. bytes_of z.chunks) (sym same)
          ∙ with_head-bytes head rest
          ∙ ap (λ z. head ++ z) (bytes_of-drop mime_sniff_prefix_len src.chunks)
          ∙ take-append-drop mime_sniff_prefix_len (bytes_of src.chunks),
      subst (λ z. Reads z.chunks) same
          (with_head-Reads head rest (drop_bytes-Reads mime_sniff_prefix_len src.chunks h)),
    )

some_bytes : (c : Text) → 1 ≤ length c → (length c == 0) ≡ false
some_bytes c h = ground arith

capped_none :
    (max count : ℕ) (cs : List Text) (broken : Bool)
    → Reads cs
    → (copy_capped max count cs broken).fault ≡ none
    → (copy_capped max count cs broken).written ≡ bytes_of cs
unfolding copy_capped
capped_none max count [] broken h e = refl
capped_none max count (c ∷ cs) broken (p, h) e =
    next (leb max count) (ltb max (count + length c)) (copy_capped max (count + length c) cs broken)
      (capped_none max (count + length c) cs broken h) e
  where
    next :
        (a b : Bool) (rest : Copied)
        → (rest.fault ≡ none → rest.written ≡ bytes_of cs)
        → (read_next a b c rest).fault ≡ none
        → (read_next a b c rest).written ≡ c ++ bytes_of cs
    next true b rest k e = absurd (cc (rw (read_next, some_bytes c p) at e))
    next false true rest k e = absurd (cc)
    next false false rest k e = ap (λ z. c ++ z) (k e)

pub copy_upload-none :
    (p : UploadPolicy) (src : Source)
    → Reads src.chunks
    → (copy_upload p src).fault ≡ none
    → (copy_upload p src).written ≡ bytes_of src.chunks
unfolding copy_upload copy_under copy_all
copy_upload-none p src h e = limit p.max_size_bytes e
  where
    limit :
        (m : ℤ) → (copy_under m src).fault ≡ none → (copy_under m src).written ≡ bytes_of src.chunks
    limit (negsuc n) e = refl
    limit (pos max) e = elim (Bool-cases (max == 0)) [
      | inl no_limit ↦ rw (copy_under, no_limit) refl
      | inr limited ↦
          rw (copy_under, limited)
            (capped_none max 0 src.chunks src.broken h (rw (copy_under, limited) at e))
    ]
