-- ===== src/Lib.antt =====
-- A model of scim-server, a SCIM 2.0 server in Rust, and of what its parts guarantee.
--
-- A request for users or groups goes through a tenant's authentication to a handler (src/resource),
-- which parses filters, sort orders and PATCH paths (src/parser), checks and normalises the resource
-- by the SCIM schemas (src/schema), calls a database backend (src/backend) and filters the attributes
-- of the answer. Resources are JSON throughout; PATCH works on the JSON of the stored resource.
--
-- The files, and the code that each models:
--   Common, Common/*        shared names, Boolean tests, lists; Common/Indices has the loops that
--                           collect indices and then visit them, and what each amounts to.
--   Text, Text/*            Rust's `str` as a list of characters; byte offsets are walked over the
--                           characters' UTF-8 lengths, and a cut inside a character is `none`.
--   Json, Json/*            serde_json's Value, Map and Number. A map is the list of its entries in
--                           the order of the keys. Of a finite f64 only the value is kept.
--   Error                   src/error.rs: AppError, AppResult, `?`, and the status of an error.
--   Config                  src/config.rs: CompatibilityConfig and its defaults.
--   Schema/Primary          src/schema/validation.rs: validate_primary_constraint,
--                           validate_user_primary_constraints, enforce_single_primary.
--   Filter                  src/parser/filter_operator.rs: FilterOperator.
--   Filter/Scan             src/parser/filter_parser.rs: the loops with quotes, escapes and depth,
--                           find_operator_position among them.
--   Filter/Parser           src/parser/filter_parser.rs: parse_filter, find_logical_operator,
--                           parse_simple_filter, parse_filter_value.
--   Filter/Eval             src/parser/patch_parser.rs: ScimFilter (matches, get_condition).
--   Patch/Path              src/parser/patch_parser.rs: ScimPath::parse.
--   Patch/Attribute         the same file: operations on attribute paths, with navigation and the
--                           update of `schemas`.
--   Patch/Items             the same file: remove_items_from_array and items_match.
--   Patch/ValuePath         the same file: operations on value paths.
--   Schema/Definitions      src/schema/definitions.rs: AttributeDefinition and find_attribute; below it
--                           the tables of the attributes, which Schema/Tables puts together.
--   Schema/Lookup           the same file: the lookups in the schema of a resource type.
--   Response/Nulls          src/resource/attribute_filter.rs: remove_null_fields.
--   Response/Attributes     the same file: AttributeFilter, with a HashSet as the list of its elements;
--                           should_fetch_external_attributes of src/schema/definitions.rs.
--   Password                src/password: the rules for passwords, and PasswordManager.
--   User                    src/backend/database/user_insert.rs, user_update.rs, user_patch.rs: the
--                           preparation of a user and the loop over a patch's operations. `Services`
--                           are the parameters.
--   User/Store              the SQLite adapters of these and of user_delete.rs: the users' table as a
--                           list of rows. A request that fails leaves the table.
--   User/Reachable          requests as steps from the empty table.
--   Config/Env              src/config.rs: expand_env_vars.
--   Host, Tenant            the same file: the address of a request, the tenant that it is for, and the
--                           tenant's base address.
--   Auth                    src/auth.rs: the middleware, up to the handler that it calls.
--   Group                   src/backend/database/group_insert.rs, group_update.rs: the preparation of a
--                           group. `GroupServices` are the parameters.
--   Group/Store             the SQLite adapters' transactions on groups, and user_delete_impl.rs: the
--                           tables of users, groups and memberships with their constraints.
--   Group/Read, Group/Pages group_read_impl.rs: groups read with their members, and the operations that
--                           end with reading one.
--   Group/Reachable         requests on users and groups as steps from the empty tables.
--   Group/Handlers          src/resource/group.rs: the handlers, of search_groups in part, with the
--                           adjustments of src/utils.rs; a request is its path, If-Match, and body.
--   Filter/Sql              src/backend/database/sqlite/filter_impl.rs: a filter as a condition of SQL,
--                           with its parameters.
--
-- A function that changes a value in place returns the new value. `AppResult` has two more outcomes
-- than the program's: `panicked`, for a slice out of range, and `out_of_fuel`; the result of
-- expand_env_vars has `unfinished`. parse_filter takes a
-- unit of fuel for each level of its recursion; each level works on a shorter text, so that fuel above
-- the number of characters suffices. expand_from takes one for each round of its
-- loop, of which a text has at most as many as characters; `without` of Group/Handlers/Payload
-- likewise. digits_before of Text/Numbers takes one for each digit, and is given more than the number.
-- All other loops are recursions on a list.
--
-- Parameters: the parsing of an f64 (the standard library), the comparison of two numbers as f64
-- (serde_json), serde with the structs of the crate scim_v2, dates as text
-- (chrono), Unicode lower case, the texts of JSON values, the hash functions and
-- base64, the environment's variables, ranges of addresses (ipnet), SQLite's json_extract and the text of its errors, and the normalisation of
-- src/schema/normalization.rs.
--
-- Not modelled: the HTTP layer but for the handlers of groups; what SQL does with the conditions
-- of a search, sort orders, the reads of users, and PostgreSQL; failures of the connection to the
-- database; the hash functions; formats that third-party crates check (e-mail addresses, URIs,
-- time zones, language tags); the discovery documents, reading configuration files, logging.
pub mod Common
pub mod Text
pub mod Json
pub mod Error
pub mod Schema
pub mod Filter
pub mod Config
pub mod Patch
pub mod Response
pub mod Password
pub mod User
pub mod Host
pub mod Tenant
pub mod Auth
pub mod Group
