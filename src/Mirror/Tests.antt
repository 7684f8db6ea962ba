-- ===== src/Mirror/Tests.antt =====
-- Listings in memory, and in a Postgres that refuses every row.
use real_estate_platform.Base.{◌≡◌, refl, false, [], ◌∷◌, ◌++◌, some, none, arith, contains}
use real_estate_platform.Base.Int.{pos}
use real_estate_platform.Enums.{available, sold}
use real_estate_platform.Exec.{ok, err, steps, failed}
use real_estate_platform.Listing.{Property, no_details}
use real_estate_platform.Platform.{Platform, World}
use real_estate_platform.Platform.Memory.{in_memory, empty}
use real_estate_platform.Mirror.{
  mirror_of, copy_mirror, as_app_exception, compensate, undo_create, create_with_mirror,
  undo_update, update_with_mirror, duplicate_listing, undo_delete, soft_delete_with_mirror,
}
use real_estate_platform.Mirror.Atomic.{
  IsMirrored, Atomic, rows_of, documents_of, create_with_mirror-Atomic,
}
use real_estate_platform.Mirror.Deletion.{AtomicDeletion, soft_delete_with_mirror-AtomicDeletion}
use real_estate_platform.Mirror.Update.{Updated, update_with_mirror-Atomic}

handlers : Unit {0}
unfolding steps mirror_of copy_mirror as_app_exception compensate undo_create create_with_mirror
    undo_update update_with_mirror undo_delete soft_delete_with_mirror
handlers = tt

abbrev villa : Property
villa = record {
  mongo_id = "m1";
  property_id = "p1";
  slug = "villa";
  price_amount = 100;
  status = available;
  is_featured = false;
  compound_id = none;
  developer_id = none;
  area_id = none;
  details = no_details;
  stats = record { views = 0; favorites = pos 0; leads = 0 };
  published_at = none;
  deleted_at = none;
}

abbrev listed : World in_memory
listed = (create_with_mirror in_memory villa empty).1

created : create_with_mirror in_memory villa empty ≡ (ok villa, listed)
unfolding handlers
created = refl

nothing_Mirrored : IsMirrored in_memory empty
nothing_Mirrored = record { in_step = refl; unique = λ i. omega arith }

create_with_mirror-Atomic_example : Atomic in_memory empty listed (ok villa) (λ d.
    (d ≡ villa)
    × (rows_of in_memory listed ≡ [] ++ mirror_of villa ∷ [])
    × (documents_of in_memory listed ≡ [] ++ villa ∷ []))
create_with_mirror-Atomic_example =
    create_with_mirror-Atomic in_memory villa empty listed (ok villa) created (λ db. (_, refl)) refl
      refl nothing_Mirrored

abbrev sell : Property → Property
sell d = record d { status = sold }

abbrev sold_world : World in_memory
sold_world = (update_with_mirror in_memory "p1" sell listed).1

updated : update_with_mirror in_memory "p1" sell listed ≡ (ok (sell villa), sold_world)
unfolding handlers
updated = refl

update_with_mirror-Atomic_example :
    Atomic in_memory listed sold_world
      (ok (sell villa))
      (Updated in_memory "p1" sell listed sold_world)
update_with_mirror-Atomic_example =
    update_with_mirror-Atomic in_memory "p1" sell listed sold_world (ok (sell villa))
      (record { property_id = λ d. refl; mongo_id = λ d. refl }) updated (λ d db. (_, refl))
      create_with_mirror-Atomic_example.mirrored

-- A Postgres that refuses rows as duplicates.
abbrev strict : Platform
strict = record in_memory {
  property_index = record (in_memory.property_index) {
    create = λ r db. failed "Unique constraint failed (P2002)";
    create_rows = λ r db a e. absurd (ground arith);
  };
}

abbrev strict_empty : World strict
strict_empty = record {
  users = [];
  refresh_tokens = [];
  accounts = [];
  property_index = [];
  leads = [];
  favorites = [];
  saved_searches = [];
  areas = [];
  developers = [];
  compounds = [];
  compound_amenities = [];
  listings = [];
  redis = [];
}

undone : create_with_mirror strict villa strict_empty ≡ (err duplicate_listing, strict_empty)
unfolding handlers contains
undone = refl

-- A listing that is deleted softly keeps its document and its row, both dated.
dated :
    (soft_delete_with_mirror in_memory "p1" 9 listed).1.property_index
    ≡ record (mirror_of villa) { deleted_at = some 9 } ∷ []
unfolding handlers
dated = refl

abbrev withdrawn : World in_memory
withdrawn = (soft_delete_with_mirror in_memory "p1" 9 listed).1

deleted :
    soft_delete_with_mirror in_memory "p1" 9 listed
    ≡ (ok (record (mirror_of villa) { deleted_at = some 9 }), withdrawn)
unfolding handlers
deleted = refl

soft_delete_with_mirror-AtomicDeletion_example :
    AtomicDeletion in_memory "p1" 9 listed withdrawn
      (ok (record (mirror_of villa) { deleted_at = some 9 }))
soft_delete_with_mirror-AtomicDeletion_example =
    soft_delete_with_mirror-AtomicDeletion in_memory "p1" 9 listed withdrawn
      (ok (record (mirror_of villa) { deleted_at = some 9 })) deleted (λ db. (_, refl))
      create_with_mirror-Atomic_example.mirrored
