-- ===== src/Errors/Statuses.antt =====
-- The default code of a bare status: which class of failure it names.
use real_estate_platform.Base.{ℕ, ◌≡◌, Bool, true, false, leb, arith}
use real_estate_platform.Errors.{ErrorCode, error_code_for_status}

-- Whether a code of the catalogue's transport group blames the server.
abbrev pub blames_server : ErrorCode → Bool
blames_server ErrorCode.internal_server_error = true
blames_server ErrorCode.not_implemented = true
blames_server ErrorCode.bad_gateway = true
blames_server ErrorCode.service_unavailable = true
blames_server ErrorCode.gateway_timeout = true
blames_server _ = false

-- The default code of a status blames the server exactly when the status is at least 500.
error_code_for_status_class :
    (status : ℕ) → blames_server (error_code_for_status status) ≡ leb 500 status
unfolding error_code_for_status
error_code_for_status_class status = ground arith
