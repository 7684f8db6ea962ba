-- ===== src/Identifier/Tests.antt =====
-- Identifiers and texts that are none.
use real_estate_platform.Base.{◌≡◌, refl, true, false}
use real_estate_platform.Identifier.{is_uuid, is_object_id_hex}

uuid : is_uuid "3F2504E0-4f89-41d3-9a0c-0305e82c3301" ≡ true
unfolding is_uuid
uuid = refl

no_version : is_uuid "3f2504e0-4f89-01d3-9a0c-0305e82c3301" ≡ false
unfolding is_uuid
no_version = refl

slug : is_uuid "palm-hills" ≡ false
unfolding is_uuid
slug = refl

object_id : is_object_id_hex "65f0c0ffee65f0c0ffee1234" ≡ true
unfolding is_object_id_hex
object_id = refl
