-- ===== src/Filter.antt =====
-- `FilterOperator` of src/parser/filter_operator.rs: the abstract syntax of SCIM filters.
pub mod Eval
pub mod Scan
pub mod Parser
pub mod Sql
use scim_server.Text.{Text}
use scim_server.Json.{Value}

pub data FilterOperator : Type 0 where
  equal : Text → Value → FilterOperator
  not_equal : Text → Value → FilterOperator
  contains : Text → Value → FilterOperator
  starts_with : Text → Value → FilterOperator
  ends_with : Text → Value → FilterOperator
  greater_than : Text → Value → FilterOperator
  greater_than_or_equal : Text → Value → FilterOperator
  less_than : Text → Value → FilterOperator
  less_than_or_equal : Text → Value → FilterOperator
  present : Text → FilterOperator
  conj : FilterOperator → FilterOperator → FilterOperator
  disj : FilterOperator → FilterOperator → FilterOperator
  neg : FilterOperator → FilterOperator
  complex : Text → FilterOperator → FilterOperator
