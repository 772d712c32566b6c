-- ===== src/Storage/ListQuery/Whitelist.antt =====
-- list_query.rs: which texts the pieces of SQL are made of.
use mathlib.Core.Path.{subst}
use my_template.Prelude.{
  ℕ, ℤ, String, ◌≡◌, refl, ◌⊎◌, inl, inr, Bool, true, false, ◌||◌, Option, none, some, List, [],
  ◌∷◌, ◌++◌, str_eq, Option-cases,
}
use my_template.Core.{BantoError, Result, ok, err, ◌>>=◌}
use my_template.Core.Params.{
  SortDirection, SortState, FilterOp, Value, Values, FilterState, Pagination, ListParams, asc, desc,
  eq, ne, lt, lte, gt, gte, contains, starts_with, in_list, is_null, not_null, null, bool, number,
  string, array, object, nil, cons,
}
use my_template.Storage.ListQuery.{
  Piece, raw, bind, ColumnMap, resolve, bind_value, bind_number, value_as_like_operand, push_binop,
  push_like, push_in, bind_items, push_condition, resolved, conditions, append_where,
  append_order_by, orders, direction_text, append_pagination, apply_list_params,
}

-- The SQL texts of the source.
abbrev fixed : List String
fixed =
    " WHERE " ∷ " AND " ∷ " ORDER BY " ∷ ", " ∷ " ASC NULLS LAST" ∷ " DESC NULLS LAST" ∷ " LIMIT "
    ∷ " OFFSET " ∷ " IS NULL" ∷ " IS NOT NULL" ∷ " " ∷ "=" ∷ "<>" ∷ "<" ∷ "<=" ∷ ">" ∷ ">="
    ∷ "LOWER(" ∷ ") LIKE LOWER(" ∷ ") ESCAPE '\\'" ∷ "1=0" ∷ " IN (" ∷ ")" ∷ []

abbrev is_one_of : String → List String → Bool
is_one_of s [] = false
is_one_of s (t ∷ ts) = str_eq s t || is_one_of s ts

abbrev pub is_fixed : String → Bool
is_fixed s = is_one_of s fixed

-- A piece of SQL is a fixed text or the text of a column of the map; a bound value may be anything.
abbrev pub IsListed : ColumnMap → Piece → Type 0
IsListed columns (raw s) = (is_fixed s ≡ true) ⊎ ((field : String) × (columns field ≡ some s))
IsListed columns (bind b) = Unit

abbrev pub AllListed : ColumnMap → List Piece → Type 0
AllListed columns [] = Unit
AllListed columns (p ∷ ps) = IsListed columns p × AllListed columns ps

module _ (columns : ColumnMap) where
  abbrev Clean : Result (List Piece) → Type 0
  Clean (ok pieces) = AllListed columns pieces
  Clean (err e) = Unit

  append-AllListed :
      (ps qs : List Piece)
      → AllListed columns ps
      → AllListed columns qs
      → AllListed columns (ps ++ qs)
  append-AllListed [] qs h k = k
  append-AllListed (p ∷ ps) qs h k = (h.0, append-AllListed ps qs h.1 k)

  then-Clean :
      (r : Result (List Piece)) (next : List Piece → Result (List Piece))
      → Clean r
      → ((ps : List Piece) → AllListed columns ps → Clean (next ps))
      → Clean (r >>= next)
  then-Clean (ok ps) next h g = g ps h
  then-Clean (err e) next h g = tt

  after-Clean :
      {X : Type 0} (r : Result X) (next : X → Result (List Piece))
      → ((x : X) → r ≡ ok x → Clean (next x))
      → Clean (r >>= next)
  after-Clean (ok x) next g = g x refl
  after-Clean (err e) next g = tt

  module _ (show : Value → String) where
    bind_number-Clean : (i : Option ℤ) (f : Option ℕ) → Clean (bind_number show i f)
    unfolding bind_number
    bind_number-Clean (some i) f = (tt, tt)
    bind_number-Clean none (some f) = (tt, tt)
    bind_number-Clean none none = tt

    bind_value-Clean : (value : Value) → Clean (bind_value show value)
    unfolding bind_value
    bind_value-Clean (string s) = (tt, tt)
    bind_value-Clean (bool b) = (tt, tt)
    bind_value-Clean (number n) = bind_number-Clean n.as_i64 n.as_f64
    bind_value-Clean null = tt
    bind_value-Clean (array items) = tt
    bind_value-Clean (object fields) = tt

    module _ (column : String) (listed : IsListed columns (raw column)) where
      push_binop-Clean :
          (op : String)
          → is_fixed op ≡ true
          → (value : Value) → Clean (push_binop show column op value)
      unfolding push_binop
      push_binop-Clean op h value =
          then-Clean (bind_value show value) _ (bind_value-Clean value)
            λ bound clean. (listed, (inl refl, (inl h, (inl refl, clean))))

      push_like-Clean : (value : Value) (p s : Bool) → Clean (push_like show column value p s)
      unfolding push_like
      push_like-Clean value p s =
          after-Clean (value_as_like_operand show value) _
            λ operand read. (inl refl, (listed, (inl refl, (tt, (inl refl, tt)))))

      bind_items-Clean : (first : Value) (rest : Values) → Clean (bind_items show first rest)
      unfolding bind_items
      bind_items-Clean first nil = bind_value-Clean first
      bind_items-Clean first (cons second rest) =
          then-Clean (bind_value show first) _ (bind_value-Clean first) λ bound b.
            then-Clean (bind_items show second rest) _ (bind_items-Clean second rest)
              λ others o. append-AllListed bound (raw ", " ∷ others) b (inl refl, o)

      push_in-Clean : (value : Value) → Clean (push_in show column value)
      unfolding push_in
      push_in-Clean (array nil) = (inl refl, tt)
      push_in-Clean (array (cons first rest)) =
          then-Clean (bind_items show first rest) _ (bind_items-Clean first rest)
            λ items i. (listed, (inl refl, append-AllListed items (raw ")" ∷ []) i (inl refl, tt)))
      push_in-Clean null = tt
      push_in-Clean (bool b) = tt
      push_in-Clean (number n) = tt
      push_in-Clean (string s) = tt
      push_in-Clean (object fields) = tt

      push_condition-Clean :
          (op : FilterOp) (value : Value) → Clean (push_condition show column op value)
      unfolding push_condition
      push_condition-Clean eq value = push_binop-Clean "=" refl value
      push_condition-Clean ne value = push_binop-Clean "<>" refl value
      push_condition-Clean lt value = push_binop-Clean "<" refl value
      push_condition-Clean lte value = push_binop-Clean "<=" refl value
      push_condition-Clean gt value = push_binop-Clean ">" refl value
      push_condition-Clean gte value = push_binop-Clean ">=" refl value
      push_condition-Clean contains value = push_like-Clean value true true
      push_condition-Clean starts_with value = push_like-Clean value false true
      push_condition-Clean in_list value = push_in-Clean value
      push_condition-Clean is_null value = (listed, (inl refl, tt))
      push_condition-Clean not_null value = (listed, (inl refl, tt))

    resolved-IsListed :
        (filter : FilterState) (column : String)
        → resolved show filter (resolve columns filter.field) ≡ ok column
        → IsListed columns (raw column)
    unfolding resolve resolved
    resolved-IsListed filter column h = from (columns filter.field) refl h
      where
        from :
            (o : Option String)
            → columns filter.field ≡ o
            → resolved show filter o ≡ ok column
            → IsListed columns (raw column)
        from none same h = absurd (never h)
          where
            never : {e : BantoError} → err e ≡ ok column → ⊥
            never h = cc h
        from (some c) same h = inr (filter.field, cc (same, h))

    conditions-Clean :
        (keyword : String)
        → is_fixed keyword ≡ true
        → (filters : List FilterState) → Clean (conditions show columns keyword filters)
    unfolding conditions
    conditions-Clean keyword k [] = tt
    conditions-Clean keyword k (filter ∷ filters) =
        after-Clean (resolved show filter (resolve columns filter.field)) _ λ column found.
          then-Clean (push_condition show column filter.op filter.value) _
            (push_condition-Clean column (resolved-IsListed filter column found) filter.op
              filter.value)
            λ condition c.
              then-Clean (conditions show columns " AND " filters) _
                (conditions-Clean " AND " refl filters)
                λ others o. (inl k, append-AllListed condition others c o)

  orders-AllListed :
      (keyword : String)
      → is_fixed keyword ≡ true
      → (sort : List SortState) → AllListed columns (orders columns keyword sort)
  unfolding orders resolve
  orders-AllListed keyword k [] = tt
  orders-AllListed keyword k (s ∷ sort) = elim (Option-cases (columns s.field)) [
    | inl e ↦ rw (e, orders) (orders-AllListed keyword k sort)
    | inr (c, e) ↦
        rw (e, orders)
          (inl k, (inr (s.field, e), (inl (directed s.direction), orders-AllListed ", " refl sort)))
  ]
    where
      directed : (d : SortDirection) → is_fixed (direction_text d) ≡ true
      directed asc = refl
      directed desc = refl

  append_pagination-AllListed : (p : Option Pagination) → AllListed columns (append_pagination p)
  unfolding append_pagination
  append_pagination-AllListed none = tt
  append_pagination-AllListed (some p) = (inl refl, (tt, (inl refl, (tt, tt))))

  apply_list_params-Clean :
      (show : Value → String) (params : ListParams) → Clean (apply_list_params show columns params)
  unfolding apply_list_params append_where append_order_by
  apply_list_params-Clean show params =
      then-Clean (conditions show columns " WHERE " params.filters) _
        (conditions-Clean show " WHERE " refl params.filters)
        λ wheres w.
          append-AllListed (wheres ++ orders columns " ORDER BY " params.sort)
            (append_pagination params.pagination)
            (append-AllListed wheres (orders columns " ORDER BY " params.sort) w
              (orders-AllListed " ORDER BY " refl params.sort))
            (append_pagination-AllListed params.pagination)

-- Whatever a list request asks for, all the SQL that it adds to a query is made of the fixed texts of the
-- source and of the columns of the map; what the request itself says only ends up in bound values.
pub apply_list_params-AllListed :
    (show : Value → String) (columns : ColumnMap) (params : ListParams) (pieces : List Piece)
    → apply_list_params show columns params ≡ ok pieces
    → AllListed columns pieces
apply_list_params-AllListed show columns params pieces h =
    subst (Clean columns) h (apply_list_params-Clean columns show params)
