-- ===== src/Lib.antt =====
-- Real-estate platform: the api-core service (NestJS) and parts of the web client (Next.js).
--
-- The service keeps its rows in Postgres (through Prisma), its listing documents in MongoDB (through
-- Mongoose), and cached values, session markers and the denylist of tokens in Redis. Controllers call
-- the services; AuthService calls TokenService, TokenService the cache; UsersService revokes sessions
-- through TokenService; favourites and leads count on the listing documents through
-- PropertiesService, which writes a listing to MongoDB and to Postgres through PropertyMirrorService
-- and then counts the listings of its area through AreasService; CompoundsService counts the projects
-- of a developer through DevelopersService. The web client keeps its session, its favourites and its
-- compare tray in stores of its own.
--
-- Which file models what (paths of the source are from the root of the repository):
--   Enums, Errors, Schema, Listing: apps/api-core/src/common/enums.ts, common/errors, the models of
--     apps/api-core/prisma/schema.prisma and of apps/api-core/src/mongo/schemas/property.schema.ts,
--     as far as the services read or write them.
--   Exec: a handler is a function from the stores to a value or a thrown error and the stores after
--     it, written with do blocks; Exec.Inversion, Exec.Frames and Exec.Totality take runs apart.
--   Table, Redis, Secrets, Tokens.Jwt: Prisma, Mongoose, ioredis, argon2 and @nestjs/jwt, which are
--     no part of the repository. Each is a record of calls and of what the library documents of a
--     call that answers; a call may also throw. Platform puts the stores together; Platform.Memory
--     is a concrete one that the tests run on.
--   Cache, CacheKeys: apps/api-core/src/redis/cache.service.ts and cache-keys.ts.
--   Tokens, Duration: apps/api-core/src/modules/auth/token.service.ts (issueTokens,
--     verifyAccessToken, verifyRefreshToken, rotate, revokeRefreshJti, revokeAccessJti,
--     revokeAllSessions, purgeExpiredRefreshTokens) and modules/shared/duration.util.ts.
--   Auth, Auth.Google: modules/auth/auth.service.ts (register, validateCredentials, login, refresh,
--     logout, me, forgotPassword, resetPassword, changePassword, validateGoogleUser).
--   Guards: modules/auth/strategies/jwt.strategy.ts and modules/auth/guards.
--   Users: modules/users/users.service.ts. SavedSearches: modules/saved-searches.
--   Leads: modules/leads/leads.service.ts. Favorites: modules/favorites/favorites.module.ts.
--   Properties: modules/properties/properties.service.ts. Properties itself holds the counters
--     (adjustFavoriteCount, incrementLeadCount), Media normalizeMedia and deriveMediaKey, Pricing
--     monthlyInstallment and nextReferenceNo, Writes the bodies of requests and the document that
--     create stores, Service create, update, remove, afterWrite and invalidate, Reads findOne and
--     similar.
--   Catalog.Areas, Catalog.Developers, Catalog.Compounds: findOne, create, update, remove and the
--     counts (syncPropertyCount, syncProjectsCount) of modules/areas, developers and compounds.
--   Amenities: the loop of grouped of modules/amenities/amenities.module.ts, over what list answers.
--   Slug, Identifier: modules/shared/slug.util.ts (slugify, buildUniqueSlug) and identifier.util.ts
--     (isUuid, isObjectIdHex).
--   Mirror: modules/properties/property-mirror.service.ts.
--   Pagination: apps/api-core/src/common/utils/pagination.ts.
--   Compare, WebAuth, WebFavorites: apps/web/src/store/compare.store.ts, auth.store.ts and
--     favorites.store.ts, their calls as the steps of a relation. A call of favorites.store.ts that
--     asks the server is two steps, what it does before it waits and what it does with the answer,
--     so that calls interleave. A page load and the hydrate() that reads what was stored are one
--     step: calls between them are not modelled.
--   Base: lists, texts and integers over the native numbers that the files share.
--
-- Conventions. Numbers are natural numbers, and dates milliseconds since the epoch. One call of a
-- service reads the clock once. What a call draws at random (identifiers, salts, tokens) is an
-- argument. A call of a store that throws is taken to leave that store as it was; what was written
-- before it stays written, except in a Prisma transaction. A table lists its rows in the order in
-- which queries answer them, and a call by a unique identifier acts on every row that has it. Calls
-- run one after the other: a handler is not interrupted by another.
--
-- Library calls on texts and numbers: the NFKD form of a text (normalize), the parts of a URL, the
-- SHA-1 digest, the letter case of Unicode and the JSON of a listing are parameters. Prices, areas
-- and percentages are whole numbers, and what the code computes in floating point and then rounds is
-- computed exactly here.
--
-- Fuel. The scan of keys by which revokeAllSessions drops markers and catalogue writes drop lists
-- (delByPattern) ends when Redis answers the cursor 0; the model bounds its batches by fuel. No
-- result depends on the fuel: each is stated for every fuel, since a session that is revoked is
-- refused by the denylist and not by the absence of its marker, and no result is about cached lists.
--
-- Not modelled: the HTTP layer and the validation of requests, logging and mail (a mail that is sent
-- is part of the answer), the search index, lists and searches that only read, views of a listing,
-- uploads, the administration panel, payment plans of compounds, the components of the web client,
-- the mobile client (Dart) and the Python services.
pub mod Base
pub mod Errors
pub mod Exec
pub mod Enums
pub mod Table
pub mod Schema
pub mod Redis
pub mod Cache
pub mod CacheKeys
pub mod Listing
pub mod Platform
pub mod Properties
pub mod Identifier
pub mod Leads
pub mod Favorites
pub mod Duration
pub mod Slug
pub mod Tokens
pub mod Secrets
pub mod Amenities
pub mod Auth
pub mod Guards
pub mod Users
pub mod WebAuth
pub mod WebFavorites
pub mod Mirror
pub mod Catalog
pub mod Compare
pub mod Pagination
pub mod SavedSearches
