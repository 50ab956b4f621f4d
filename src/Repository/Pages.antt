-- ===== src/Repository/Pages.antt =====
-- repository/repository.go: what the pages hold.
use xlgo_core.Base.{
  ℕ, zero, suc, ◌+◌, ◌*◌, ◌≤◌, ◌<◌, ◌≡◌, inl, inr, refl, sym, ap, ap₂, ◌∙◌, subst, List, [], ◌∷◌,
  ◌++◌, Option, none, some, take, drop, Result, ok, err, arith, Option-cases, Bool,
}
use xlgo_core.Base.Text.{Text}
use xlgo_core.Base.Int.{ℤ, pos, negsuc, pos_part, ◌-ℤ◌, ◌*ℤ◌}
use xlgo_core.Repository.{
  Gorm, PageResult, RepositoryError, normalize_page, page_offset, clamped_offset, page_in, counted,
  in_transaction, find_page_where_ordered, validate_order_clause, Ranked,
}

-- The size that is used for a size asked for.
unfoldable pub size_of : ℤ → ℕ
unfolding normalize_page
size_of size = pos_part (normalize_page (pos 1) size).1

size_of_bounds : (size : ℤ) → (1 ≤ size_of size) × (size_of size ≤ 100)
unfolding size_of normalize_page
size_of_bounds (pos k) = ground arith
size_of_bounds (negsuc k) = ground arith

normalize_page_lem :
    (n : ℕ) (size : ℤ)
    → n < 10000
    → normalize_page (pos (suc n)) size ≡ (pos (suc n), pos (size_of size))
unfolding normalize_page size_of
normalize_page_lem n (pos k) h = ground arith
normalize_page_lem n (negsuc k) h = ground arith

normalized :
    (n k : ℕ)
    → n < 10000
    → 1 ≤ k
    → k ≤ 100
    → normalize_page (pos (suc n)) (pos k) ≡ (pos (suc n), pos k)
unfolding normalize_page
normalized n k h b c = ground arith

before_page : (n : ℕ) → pos (suc n) -ℤ pos 1 ≡ pos n
unfolding ◌-ℤ◌
before_page n = ground arith

product : (n k : ℕ) → pos n *ℤ pos k ≡ pos (n * k)
unfolding ◌*ℤ◌
product n k = grind arith

clamped_offset_lem : (n k : ℕ) → clamped_offset (pos (suc n), pos k) ≡ pos (n * k)
unfolding clamped_offset
clamped_offset_lem n k = rw (before_page n, product n k) (ground arith)

page_offset_lem :
    (n k : ℕ) → n < 10000 → 1 ≤ k → k ≤ 100 → page_offset (pos (suc n)) (pos k) ≡ pos (n * k)
unfolding page_offset
page_offset_lem n k h b c = ap clamped_offset (normalized n k h b c) ∙ clamped_offset_lem n k

next_page : (n k : ℕ) → n * k + k ≡ suc n * k
next_page n k = grind arith

zero_add : (k : ℕ) → k ≡ 0 + k
zero_add k = omega arith

suc_add : (n k : ℕ) → suc (n + k) ≡ suc n + k
suc_add n k = omega arith

no_page : (k : ℕ) → 0 ≡ 0 * k
no_page k = omega arith

take-next : {A : Type 0} (n k : ℕ) (xs : List A) → take n xs ++ take k (drop n xs) ≡ take (n + k) xs
take-next zero k xs = ap (λ m. take m xs) (zero_add k)
take-next (suc n) zero [] = ap (λ m. take m []) (suc_add n zero)
take-next (suc n) (suc k) [] = ap (λ m. take m []) (suc_add n (suc k))
take-next (suc n) k (x ∷ xs) =
    ap (λ r. x ∷ r) (take-next n k xs) ∙ ap (λ m. take m (x ∷ xs)) (suc_add n k)

after_check :
    {B : Type 0} (v : Result RepositoryError (Unit {0})) (x : Result RepositoryError B) (y : B)
    → elim v [ err e ↦ err e | ok u ↦ x ] ≡ ok y
    → x ≡ ok y
after_check (err e) x y h = cc
after_check (ok u) x y h = h

module _ (letter digit : ℕ → Bool) {A : Type 0} (gorm : Gorm A) where
  open gorm use {Conn, begin, count, find, rows, before}

  items_of : Result RepositoryError (PageResult A) → Option (List A)
  items_of (err e) = none
  items_of (ok r) = some r.items

  counted-items :
      (x : ℤ × ℤ) (total : Option ℕ) (found : Option (List A)) (r : PageResult A)
      → counted gorm x total found ≡ ok r
      → found ≡ some r.items
  unfolding counted items_of
  counted-items (p, s) none found r h = cc
  counted-items (p, s) (some t) none r h = cc
  counted-items (p, s) (some t) (some xs) r h = ap items_of h

  page_in-items :
      (q : Option Text) (o : Text) (tx : Conn) (n k : ℕ) (r : PageResult A)
      → Ranked (before o) (rows tx q o)
      → n < 10000
      → 1 ≤ k
      → k ≤ 100
      → page_in gorm q (some o) tx (pos (suc n), pos k) ≡ ok r
      → r.items ≡ take k (drop (n * k) (rows tx q o))
  unfolding page_in
  page_in-items q o tx n k r v h b c e =
      let f =
        counted-items (pos (suc n), pos k) (count tx q)
          (find tx q (some o) (pos_part (page_offset (pos (suc n)) (pos k))) k) r e in
      gorm.find-rows tx q o (n * k) k r.items v (
        subst (λ z. find tx q (some o) (pos_part z) k ≡ some r.items) (page_offset_lem n k h b c) f)

  -- A page that is found holds the rows of its place, in their order.
  find_page_where_ordered-items :
      (conn : Conn) (n : ℕ) (size : ℤ) (o : Text) (q : Option Text) (r : PageResult A)
      → Ranked (before o) (rows conn q o)
      → n < 10000
      → find_page_where_ordered gorm letter digit conn (pos (suc n)) size o q ≡ ok r
      → r.items ≡ take (size_of size) (drop (n * size_of size) (rows conn q o))
  unfolding find_page_where_ordered in_transaction
  find_page_where_ordered-items conn n size o q r v h e =
      let checked =
        after_check (validate_order_clause letter digit o)
          (in_transaction gorm q (some o) (pos (suc n)) size (begin conn)) r e in
      elim (Option-cases (begin conn)) [
        | inl no' ↦ cc (rw (no', in_transaction) at checked)
        | inr (tx, b) ↦
            let bounds = size_of_bounds size in
            let f : page_in gorm q (some o) tx (normalize_page (pos (suc n)) size) ≡ ok r =
              rw (b, in_transaction) at checked in
            let g =
              subst (λ x. page_in gorm q (some o) tx x ≡ ok r) (normalize_page_lem n size h) f in
            let same = gorm.rows-begin conn tx q o b in
            subst (λ xs. r.items ≡ take (size_of size) (drop (n * size_of size) xs)) same
              (page_in-items q o tx n (size_of size) r (subst (Ranked (before o)) (sym same) v) h
                bounds.0 bounds.1 g)
      ]

  with_page : Option (List A) → Result RepositoryError (PageResult A) → Option (List A)
  with_page none r = none
  with_page (some xs) (err e) = none
  with_page (some xs) (ok r) = some (xs ++ r.items)

  -- A client that reads the pages 1 to n.
  unfoldable pub read_pages : Conn → ℤ → Text → Option Text → ℕ → Option (List A)
  unfolding with_page find_page_where_ordered
  read_pages conn size o q zero = some []
  read_pages conn size o q (suc n) =
      with_page (read_pages conn size o q n)
        (find_page_where_ordered gorm letter digit conn (pos (suc n)) size o q)

  with_page-some :
      (o : Option (List A)) (x : Result RepositoryError (PageResult A)) (ys : List A)
      → with_page o x ≡ some ys
      → (xs : List A) × (r : PageResult A) × (o ≡ some xs) × (x ≡ ok r) × (ys ≡ xs ++ r.items)
  unfolding with_page
  with_page-some none x ys h = cc
  with_page-some (some xs) (err e) ys h = cc
  with_page-some (some xs) (ok r) ys h =
      (xs, r, refl, refl, sym (ap (λ z. elim z [ none ↦ [] | some x ↦ x ]) h))

  -- Under an order that ranks every two rows of the query, the first n pages, read one after the other,
  -- are the first rows of the query: none twice, none left out, as many as n pages of the size that is
  -- used, whatever size was asked for. (There are 10000 pages at most, and no row changes meanwhile.)
  pub read_pages_lem :
      (conn : Conn) (size : ℤ) (o : Text) (q : Option Text) (n : ℕ) (xs : List A)
      → Ranked (before o) (rows conn q o)
      → n ≤ 10000
      → read_pages conn size o q n ≡ some xs
      → (xs ≡ take (n * size_of size) (rows conn q o)) × (1 ≤ size_of size) × (size_of size ≤ 100)
  unfolding read_pages
  read_pages_lem conn size o q zero xs v h e =
      let b = size_of_bounds size in
      (
        sym (ap (λ z. elim z [ none ↦ [] | some x ↦ x ]) e)
            ∙ ap (λ m. take m (rows conn q o)) (no_page (size_of size)),
        b.0,
        b.1,
      )
  read_pages_lem conn size o q (suc n) xs v h e =
      let (ys, r, a, b, c) =
        with_page-some (read_pages conn size o q n)
          (find_page_where_ordered gorm letter digit conn (pos (suc n)) size o q) xs e in
      let earlier = read_pages_lem conn size o q n ys v (omega (arith, h)) a in
      let here = find_page_where_ordered-items conn n size o q r v (omega (arith, h)) b in
      (
        c
            ∙ (ap₂ (λ u w. u ++ w) earlier.0 here
                ∙ (take-next (n * size_of size) (size_of size) (rows conn q o)
                    ∙ ap (λ m. take m (rows conn q o)) (next_page n (size_of size)))),
        (size_of_bounds size).0,
        (size_of_bounds size).1,
      )
