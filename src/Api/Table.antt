-- ===== src/Api/Table.antt =====
-- A table of the database, as the services use the database's client (Prisma): a parameter of the
-- services, with the documented behaviour of the client's calls as laws.
pub mod Rows
pub mod Fresh
use nestai.Prelude.{
  ℕ, ◌≤◌, ◌≡◌, Bool, true, not, List, [], Option, none, some, String, All, Some, str_eq,
  if◌then◌else◌,
}

-- A row that is changed, and one that is kept when it passes a test.
abbrev pub on_row : {Row : Type 0} → (Row → Row) → Option Row → Option Row
on_row f none = none
on_row f (some r) = some (f r)

abbrev pub keep_row : {Row : Type 0} → (Row → Bool) → Option Row → Option Row
keep_row p none = none
keep_row p (some r) = if p r then some r else none

-- `findUnique` and `update` go by the id; `updateMany` and `deleteMany` take a filter; `create` is for an id that no row has; `findMany` and
-- `findFirst` take a filter, and `findFirst` orders by a key, the greatest first.
pub record Table (Row : Type 0) (id_of : Row → String) : Type 1 where
  pub Rows : Type 0
  pub find_unique : String → Rows → Option Row
  pub find_many : (Row → Bool) → Rows → List Row
  pub find_first : (Row → Bool) → (Row → ℕ) → Rows → Option Row
  pub create : Row → Rows → Rows
  pub update : String → (Row → Row) → Rows → Rows
  pub update_many : (Row → Bool) → (Row → Row) → Rows → Rows
  pub delete_many : (Row → Bool) → Rows → Rows
  pub find_unique_id :
      (k : String) (rows : Rows) (r : Row) → find_unique k rows ≡ some r → id_of r ≡ k
  pub find_unique-create :
      (k : String) (r : Row) (rows : Rows)
      → find_unique (id_of r) rows ≡ none
      → find_unique k (create r rows) ≡ (if str_eq (id_of r) k then some r else find_unique k rows)
  pub find_unique-update :
      (k i : String) (f : Row → Row) (rows : Rows) (r : Row)
      → ((x : Row) → id_of (f x) ≡ id_of x)
      → find_unique i rows ≡ some r
      → find_unique k (update i f rows) ≡ (if str_eq i k then some (f r) else find_unique k rows)
  pub find_many-find_unique :
      (p : Row → Bool) (rows : Rows)
      → All (λ r. (p r ≡ true) × (find_unique (id_of r) rows ≡ some r)) (find_many p rows)
  pub find_unique-find_many :
      (p : Row → Bool) (rows : Rows) (k : String) (r : Row)
      → find_unique k rows ≡ some r
      → p r ≡ true
      → Some (λ x. x ≡ r) (find_many p rows)
  pub find_first-find_many :
      (p : Row → Bool) (key : Row → ℕ) (rows : Rows) (r : Row)
      → find_first p key rows ≡ some r
      → Some (λ x. x ≡ r) (find_many p rows) × All (λ x. key x ≤ key r) (find_many p rows)
  pub find_first-none :
      (p : Row → Bool) (key : Row → ℕ) (rows : Rows)
      → find_first p key rows ≡ none
      → find_many p rows ≡ []
  pub find_unique-update_many :
      (k : String) (p : Row → Bool) (f : Row → Row) (rows : Rows)
      → ((x : Row) → id_of (f x) ≡ id_of x)
      → find_unique k (update_many p f rows)
        ≡ on_row (λ r. if p r then f r else r) (find_unique k rows)
  pub find_unique-delete_many :
      (k : String) (p : Row → Bool) (rows : Rows)
      → find_unique k (delete_many p rows) ≡ keep_row (λ r. not (p r)) (find_unique k rows)
