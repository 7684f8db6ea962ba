-- ===== src/Errors/Tests.antt =====
-- Default codes of concrete statuses.
use real_estate_platform.Base.{◌≡◌, refl}
use real_estate_platform.Errors.{ErrorCode, error_code_for_status}

missing : error_code_for_status 404 ≡ ErrorCode.not_found
unfolding error_code_for_status
missing = refl

-- A status outside the table has the code of its class.
teapot : error_code_for_status 418 ≡ ErrorCode.bad_request
unfolding error_code_for_status
teapot = refl

out_of_space : error_code_for_status 507 ≡ ErrorCode.internal_server_error
unfolding error_code_for_status
out_of_space = refl
