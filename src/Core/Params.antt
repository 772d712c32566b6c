-- ===== src/Core/Params.antt =====
-- crates/banto-core/src/params.rs: sorting, filtering and paging of a list request. A JSON value
-- holds a list of itself, so its lists are a type of the same block.
use my_template.Prelude.{ℕ, String, Bool, List, Option, ℤ}

pub data SortDirection : Type 0 where
  asc desc : SortDirection

pub record SortState : Type 0 where
  pub field : String
  pub direction : SortDirection

pub data FilterOp : Type 0 where
  eq ne lt lte gt gte contains starts_with in_list is_null not_null : FilterOp

-- A JSON number is what `as_i64`, `as_f64` (the bits of the float) and `to_string` make of it.
pub record Number : Type 0 where
  pub as_i64 : Option ℤ
  pub as_f64 : Option ℕ
  pub text : String

mutual
  pub data Value : Type 0 where
    null : Value
    bool : Bool → Value
    number : Number → Value
    string : String → Value
    array : Values → Value
    object : Fields → Value

  pub data Values : Type 0 where
    nil : Values
    cons : Value → Values → Values

  pub data Fields : Type 0 where
    end : Fields
    field : String → Value → Fields → Fields

pub record FilterState : Type 0 where
  pub field : String
  pub op : FilterOp
  pub value : Value

pub record Pagination : Type 0 where
  pub offset : ℕ
  pub limit : ℕ

abbrev pub default_pagination : Pagination
default_pagination = record { offset = 0; limit = 50 }

pub record ListParams : Type 0 where
  pub pagination : Option Pagination
  pub sort : List SortState
  pub filters : List FilterState

pub record ListResult (T : Type 0) : Type 0 where
  pub rows : List T
  pub total_count : ℕ
