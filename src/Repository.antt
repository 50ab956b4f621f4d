-- ===== src/Repository.antt =====
-- repository/repository.go: pages and the checks of order clauses and field names, over GORM as a
-- parameter. Letters and digits are `unicode`'s.
pub mod Pages
pub mod Orders
mod Tests
use xlgo_core.Base.{
  ℕ, ◌+◌, ◌-◌, ◌*◌, ◌≡◌, List, [], ◌∷◌, ◌++◌, Bool, true, false, not, ◌&&◌, ◌||◌, Option, none,
  some, ◌==◌, if◌then◌else◌, map, all, any, take, drop, length, Result, ok, err, All,
}
use xlgo_core.Base.Text.{Text, codes, text_eq, split_on, fields, trim_space, to_upper}
use xlgo_core.Base.Int.{ℤ, pos, pos_part, ltb_ℤ, leb_ℤ, ◌-ℤ◌, ◌*ℤ◌}

abbrev pub default_page_size : ℤ
default_page_size = pos 20

abbrev pub max_page_size : ℤ
max_page_size = pos 100

abbrev pub max_page : ℤ
max_page = pos 10000

abbrev raised : ℤ → ℤ
raised page = if ltb_ℤ page (pos 1) then pos 1 else page

abbrev defaulted : ℤ → ℤ
defaulted size = if leb_ℤ size (pos 0) then default_page_size else size

-- `normalizePage`
unfoldable pub normalize_page : ℤ → ℤ → ℤ × ℤ
normalize_page page size = (
  if ltb_ℤ max_page (raised page) then max_page else raised page,
  if ltb_ℤ max_page_size (defaulted size) then max_page_size else defaulted size,
)

unfoldable pub clamped_offset : ℤ × ℤ → ℤ
unfolding ◌-ℤ◌ ◌*ℤ◌
clamped_offset (p, s) =
    let offset = (p -ℤ pos 1) *ℤ s in if ltb_ℤ offset (pos 0) then pos 0 else offset

-- `pageOffset`
unfoldable pub page_offset : ℤ → ℤ → ℤ
unfolding normalize_page clamped_offset
page_offset page size = clamped_offset (normalize_page page size)

pub data RepositoryError : Type 0 where
  unsafe_order unsafe_field database_failed : RepositoryError

-- The second word of an order.
direction : Text → Bool
unfolding to_upper text_eq
direction d = text_eq (map to_upper d) (codes "ASC") || text_eq (map to_upper d) (codes "DESC")

module _ (letter digit : ℕ → Bool) where
  abbrev pub starts : ℕ → Bool
  starts c = c == 95 || letter c

  abbrev pub goes_on : ℕ → Bool
  goes_on c = c == 95 || (letter c || digit c)

  -- `isIdentifier`
  unfoldable pub is_identifier : Text → Bool
  is_identifier [] = false
  is_identifier (c ∷ s) = starts c && all goes_on s

  dotted : Text → Bool
  unfolding split_on is_identifier
  dotted [] = false
  dotted (c ∷ s) = all is_identifier (split_on b'.' (c ∷ s))

  -- `isIdentifierPath`
  unfoldable pub is_identifier_path : Text → Bool
  unfolding trim_space dotted
  is_identifier_path s = dotted (trim_space s)

  -- `validateIdentifier`
  unfoldable pub validate_identifier : Text → Result RepositoryError (Unit {0})
  unfolding is_identifier_path
  validate_identifier field = if is_identifier_path field then ok tt else err unsafe_field

  ordered : List Text → Bool
  unfolding is_identifier_path direction
  ordered [] = false
  ordered (f ∷ []) = is_identifier_path f
  ordered (f ∷ d ∷ []) = is_identifier_path f && direction d
  ordered (f ∷ d ∷ e ∷ es) = false

  order_item : Text → Bool
  unfolding trim_space fields ordered
  order_item raw = ordered (fields (trim_space raw))

  order_items : Text → Bool
  unfolding split_on order_item
  order_items [] = false
  order_items (c ∷ s) = all order_item (split_on b',' (c ∷ s))

  -- `validateOrderClause`
  unfoldable pub validate_order_clause : Text → Result RepositoryError (Unit {0})
  unfolding trim_space order_items
  validate_order_clause order = if order_items (trim_space order) then ok tt else err unsafe_order

-- Each row is ranked before the ones that follow it, so that no other list of these rows is in order.
abbrev pub Ranked : {A : Type 0} → (A → A → Bool) → List A → Type 0
Ranked before [] = Unit
Ranked before (x ∷ xs) = All (λ y. before x y ≡ true) xs × Ranked before xs

-- GORM: connections, transactions and queries with an optional condition and order. `rows` is what a
-- query with an order finds without a limit, `before` is how the order ranks two rows, and a
-- transaction sees the rows of its connection. An offset and a limit cut a fixed list only where the
-- order ranks every two rows of the query.
pub record Gorm (A : Type 0) : Type 1 where
  pub Conn : Type 0
  pub begin : Conn → Option Conn
  pub count : Conn → Option Text → Option ℕ
  pub find : Conn → Option Text → Option Text → ℕ → ℕ → Option (List A)
  pub rows : Conn → Option Text → Text → List A
  pub before : Text → A → A → Bool
  pub rows-begin :
      (c t : Conn) (q : Option Text) (o : Text) → begin c ≡ some t → rows t q o ≡ rows c q o
  pub find-rows :
      (c : Conn) (q : Option Text) (o : Text) (offset limit : ℕ) (found : List A)
      → Ranked (before o) (rows c q o)
      → find c q (some o) offset limit ≡ some found
      → found ≡ take limit (drop offset (rows c q o))

pub record PageResult (A : Type 0) : Type 0 where
  pub items : List A
  pub total : ℕ
  pub page : ℤ
  pub page_size : ℤ

module _ {A : Type 0} (gorm : Gorm A) where
  open gorm use {Conn, begin, count, find}

  -- What `readConn` and `writeConn` choose from: the transaction of the context, that of the
  -- repository, what the manager routes to, and the connection the repository was made with. Without
  -- the last they panic.
  unfoldable pub choose_conn : Option Conn → Option Conn → Option Conn → Option Conn → Option Conn
  choose_conn outer inner routed none = none
  choose_conn (some tx) inner routed (some base) = some tx
  choose_conn none (some tx) routed (some base) = some tx
  choose_conn none none (some db) (some base) = some db
  choose_conn none none none (some base) = some base

  -- The function of the transaction: the count, then the rows of the page.
  counted : ℤ × ℤ → Option ℕ → Option (List A) → Result RepositoryError (PageResult A)
  counted (p, s) none found = err database_failed
  counted (p, s) (some total) none = err database_failed
  counted (p, s) (some total) (some found) =
      ok (record { items = found; total = total; page = p; page_size = s })

  unfoldable pub page_in :
      Option Text → Option Text → Conn → ℤ × ℤ → Result RepositoryError (PageResult A)
  unfolding counted page_offset
  page_in query order tx (p, s) =
      counted (p, s) (count tx query)
        (find tx query order (pos_part (page_offset p s)) (pos_part s))

  unfoldable pub in_transaction :
      Option Text → Option Text → ℤ → ℤ → Option Conn → Result RepositoryError (PageResult A)
  unfolding page_in normalize_page
  in_transaction query order page size none = err database_failed
  in_transaction query order page size (some tx) = page_in query order tx (normalize_page page size)

  -- `FindPage` and `FindPageWhere`
  unfoldable pub find_page_where :
      Conn → ℤ → ℤ → Option Text → Result RepositoryError (PageResult A)
  unfolding in_transaction
  find_page_where c page size query = in_transaction query none page size (begin c)

  -- `FindPageOrdered` and `FindPageWhereOrdered`
  unfoldable pub find_page_where_ordered :
      (letter digit : ℕ → Bool)
      → Conn
      → ℤ
      → ℤ
      → Text
      → Option Text
      → Result RepositoryError (PageResult A)
  unfolding validate_order_clause in_transaction
  find_page_where_ordered letter digit c page size order query =
      elim (validate_order_clause letter digit order) [
        | err e ↦ err e
        | ok u ↦ in_transaction query (some order) page size (begin c)
      ]
