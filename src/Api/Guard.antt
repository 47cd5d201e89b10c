-- ===== src/Api/Guard.antt =====
-- services/api/src/tenant/household.guard.ts: the household of a request, from its header.
mod Tests
use nestai.Prelude.{
  ◌≡◌, refl, inl, inr, false, ◌||◌, String, List, [], ◌∷◌, Option, none, some, arith, str_eq,
  if◌then◌else◌, Bool-cases,
}
use nestai.Prelude.Results.{Result, ok, throw, unauthorized}
use nestai.Core.Text.{trim}
use nestai.Api.Database.{TenantContext, household_id}

-- A header of the request: missing, a text, or several.
pub data HeaderValue : Type 0 where
  missing : HeaderValue
  single : String → HeaderValue
  several : List String → HeaderValue

-- What `req.header`, where the request has it, returns for x-household-id, and the same header in
-- `req.headers`.
pub record HttpRequestLike : Type 0 where
  pub header : Option String
  pub headers : HeaderValue

abbrev first_of : HeaderValue → Option String
first_of missing = none
first_of (single text) = some text
first_of (several []) = none
first_of (several (text ∷ texts)) = some text

abbrev header_of : Option String → HeaderValue → Option String
header_of (some text) headers = some text
header_of none headers = first_of headers

abbrev resolve : Option String → Result TenantContext
resolve none = throw unauthorized
resolve (some header) =
    if str_eq header "" || str_eq (trim header) ""
    then throw unauthorized
    else ok (some (trim header))

unfoldable pub can_activate : HttpRequestLike → Result TenantContext
can_activate req = resolve (header_of req.header req.headers)

resolve-household_id :
    (header : Option String) (tenant : TenantContext)
    → resolve header ≡ ok tenant
    → (h : String) × (tenant ≡ some h) × (household_id tenant ≡ ok h) × (str_eq h "" ≡ false)
resolve-household_id none tenant e = cc
resolve-household_id (some header) tenant e = elim (Bool-cases (str_eq header "")) [
  | inl empty ↦ ground (arith, empty, e)
  | inr set ↦ elim (Bool-cases (str_eq (trim header) "")) [
    | inl blank ↦ ground (arith, set, blank, e)
    | inr kept ↦ (trim header, ground (arith, set, kept, e), ground (arith, set, kept, e), kept)
  ]
]

-- A request that passes has a household whose id is not empty.
pub can_activate-household_id :
    (req : HttpRequestLike) (tenant : TenantContext)
    → can_activate req ≡ ok tenant
    → (h : String) × (tenant ≡ some h) × (household_id tenant ≡ ok h) × (str_eq h "" ≡ false)
unfolding can_activate
can_activate-household_id req tenant e =
    resolve-household_id (header_of req.header req.headers) tenant e
