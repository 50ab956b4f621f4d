-- ===== src/Repository/Tests.antt =====
-- Pages of a short table, and orders that are refused.
use xlgo_core.Base.{
  ℕ, ◌*◌, ◌≡◌, ◌≤◌, refl, sym, ap, List, [], ◌∷◌, Bool, true, ◌&&◌, ◌||◌, none, some, leb, ltb,
  length, take, drop, all, ok, err, arith,
}
use xlgo_core.Base.Text.{codes}
use xlgo_core.Base.Int.{pos, negsuc}
use xlgo_core.Repository.{
  Gorm, Ranked, validate_order_clause, validate_identifier, unsafe_order, unsafe_field,
}
use xlgo_core.Repository.Pages.{size_of, read_pages, read_pages_lem}
use xlgo_core.Repository.Orders.{harmless, validate_order_clause-harmless}

-- A table of numbers in ascending order, which nobody filters.
abbrev table : List ℕ → Gorm ℕ
table xs = record {
  Conn = Unit {0};
  begin = λ c. some tt;
  count = λ c q. some (length xs);
  find = λ c q o offset limit. some (take limit (drop offset xs));
  rows = λ c q o. xs;
  before = λ o a b. ltb a b;
  rows-begin = λ c t q o h. refl;
  find-rows = λ c q o offset limit found v h. sym (ap (λ z. elim z [ none ↦ [] | some x ↦ x ]) h);
}

abbrev five : List ℕ
five = 10 ∷ 20 ∷ 30 ∷ 40 ∷ 50 ∷ []

size_of-const : size_of (negsuc 4) ≡ 20
unfolding size_of
size_of-const = refl

abbrev letter : ℕ → Bool
letter c = (leb 65 c && leb c 90) || (leb 97 c && leb c 122)

abbrev digit : ℕ → Bool
digit c = leb 48 c && leb c 57

ranked : Ranked (λ a b. ltb a b) five
ranked = (
  (refl, (refl, (refl, (refl, tt)))),
  ((refl, (refl, (refl, tt))), ((refl, (refl, tt)), ((refl, tt), (tt, tt)))),
)

read_pages-two :
    read_pages letter digit (table five) tt (pos 2) (codes "age") none 2
    ≡ some (10 ∷ 20 ∷ 30 ∷ 40 ∷ [])
unfolding read_pages
read_pages-two = refl

read_pages_lem_example :
    (10 ∷ 20 ∷ 30 ∷ 40 ∷ [] ≡ take (2 * size_of (pos 2)) five)
    × (1 ≤ size_of (pos 2))
    × (size_of (pos 2) ≤ 100)
read_pages_lem_example =
    read_pages_lem letter digit (table five) tt (pos 2) (codes "age") none 2
      (10 ∷ 20 ∷ 30 ∷ 40 ∷ []) ranked (omega arith) read_pages-two

validate_order_clause-const :
    validate_order_clause letter digit (codes "name; DROP TABLE t") ≡ err unsafe_order
unfolding validate_order_clause
validate_order_clause-const = refl

validate_identifier-const : validate_identifier letter digit (codes "a.1b") ≡ err unsafe_field
unfolding validate_identifier
validate_identifier-const = refl

orders_accepted : validate_order_clause letter digit (codes "t.age desc, name") ≡ ok tt
unfolding validate_order_clause
orders_accepted = refl

validate_order_clause-harmless_example :
    all (harmless letter digit) (codes "t.age desc, name") ≡ true
validate_order_clause-harmless_example =
    validate_order_clause-harmless letter digit (codes "t.age desc, name") orders_accepted
