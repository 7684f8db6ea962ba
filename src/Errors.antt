-- ===== src/Errors.antt =====
-- apps/api-core/src/common/errors: the catalogue of error codes and the exception that feature code
-- throws. `Thrown` is any thrown value: an `AppException`, or an error of a library with its message.
pub mod Statuses
mod Tests
use real_estate_platform.Base.{ℕ, List, [], Option, leb, ◌=?◌, if◌then◌else◌, String, ◌∷◌, some}

pub data ErrorCode : Type 0 where
  bad_request validation_error unauthorized forbidden not_found method_not_allowed : ErrorCode
  conflict unsupported_media_type payload_too_large too_many_requests : ErrorCode
  internal_server_error not_implemented bad_gateway service_unavailable gateway_timeout : ErrorCode
  database_error database_unavailable duplicate_resource related_resource_not_found : ErrorCode
  resource_in_use invalid_identifier : ErrorCode
  invalid_credentials email_already_exists account_disabled token_expired invalid_token : ErrorCode
  refresh_token_reused refresh_token_missing oauth_not_configured oauth_failed : ErrorCode
  insufficient_role invalid_service_token password_reset_invalid : ErrorCode
  property_not_found compound_not_found developer_not_found area_not_found : ErrorCode
  amenity_not_found user_not_found lead_not_found favorite_not_found : ErrorCode
  favorite_already_exists saved_search_not_found review_not_found upload_failed : ErrorCode
  storage_not_configured : ErrorCode

-- The rows of `STATUS_TO_ERROR_CODE`, in its order.
abbrev pub status_to_error_code : List (ℕ × ErrorCode)
status_to_error_code =
    (400, bad_request)
    ∷ (401, unauthorized)
    ∷ (403, forbidden)
    ∷ (404, not_found)
    ∷ (405, method_not_allowed)
    ∷ (409, conflict)
    ∷ (413, payload_too_large)
    ∷ (415, unsupported_media_type)
    ∷ (422, validation_error)
    ∷ (429, too_many_requests)
    ∷ (500, internal_server_error)
    ∷ (501, not_implemented)
    ∷ (502, bad_gateway)
    ∷ (503, service_unavailable)
    ∷ (504, gateway_timeout)
    ∷ []

abbrev pub code_at : List (ℕ × ErrorCode) → ℕ → ErrorCode → ErrorCode
code_at [] status fallback = fallback
code_at ((s, c) ∷ table) status fallback = if s =? status then c else code_at table status fallback

unfoldable pub error_code_for_status : ℕ → ErrorCode
error_code_for_status status =
    code_at status_to_error_code status
      (if leb 500 status then internal_server_error else bad_request)

pub record ApiErrorDetail : Type 0 where
  pub field : Option String
  pub message : String
  pub rule : Option String

pub record AppException : Type 0 where
  pub status : ℕ
  pub code : ErrorCode
  pub message : String
  pub details : List ApiErrorDetail

abbrev pub detail : String → String → String → List ApiErrorDetail
detail f m r = record { field = some f; message = m; rule = some r } ∷ []

pub data Thrown : Type 0 where
  app : AppException → Thrown
  library : String → Thrown

-- The static constructors of `AppException`.
abbrev pub raise : ℕ → String → ErrorCode → List ApiErrorDetail → Thrown
raise s m c ds = app (record { status = s; code = c; message = m; details = ds })

abbrev pub bad_request_error : String → ErrorCode → List ApiErrorDetail → Thrown
bad_request_error m c ds = raise 400 m c ds

abbrev pub validation : String → List ApiErrorDetail → ErrorCode → Thrown
validation m ds c = raise 422 m c ds

abbrev pub unauthorized_error : String → ErrorCode → Thrown
unauthorized_error m c = raise 401 m c []

abbrev pub forbidden_error : String → ErrorCode → Thrown
forbidden_error m c = raise 403 m c []

abbrev pub not_found_error : String → ErrorCode → Thrown
not_found_error m c = raise 404 m c []

abbrev pub conflict_error : String → ErrorCode → List ApiErrorDetail → Thrown
conflict_error m c ds = raise 409 m c ds

abbrev pub service_unavailable_error : String → ErrorCode → Thrown
service_unavailable_error m c = raise 503 m c []

abbrev pub internal_error : String → ErrorCode → Thrown
internal_error m c = raise 500 m c []
