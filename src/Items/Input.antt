-- ===== src/Items/Input.antt =====
-- items.rs: the input of an item and its validation, which collects every violation.
use my_template.Prelude.{
  ℕ, ◌≤◌, String, ◌<>◌, ◌≡◌, ◌↔◌, ◌⊎◌, inl, inr, refl, false, List, [], ◌∷◌, ◌++◌, arith, trim,
  is_empty, is_empty-count, char_count, ltb, if◌then◌else◌, ℤ, pos, ltb_ℤ, to_string, to_string_ℤ,
}
use my_template.Core.{FieldError, validation, Result, ok, err}

pub record ItemInput : Type 0 where
  pub name : String
  pub price : ℤ
  pub stock : ℤ

abbrev pub max_name_len : ℕ
max_name_len = 40

abbrev pub min_price : ℤ
min_price = pos 0

abbrev pub max_price : ℤ
max_price = pos 99999

abbrev pub min_stock : ℤ
min_stock = pos 0

abbrev pub required_message : String
required_message = "必須項目です"

abbrev pub min_message : ℤ → String
min_message min = to_string_ℤ min <> "以上で入力してください"

abbrev pub max_message : ℤ → String
max_message max = to_string_ℤ max <> "以下で入力してください"

abbrev pub max_length_message : ℕ → String
max_length_message max = to_string max <> "文字以内で入力してください"

abbrev problem : String → String → List FieldError
problem field message = record { field = field; message = message } ∷ []

unfoldable pub name_errors : String → List FieldError
name_errors name =
    let trimmed = trim name in
    if is_empty trimmed
    then problem "name" required_message
    else if ltb max_name_len (char_count trimmed)
    then problem "name" (max_length_message max_name_len)
    else []

unfoldable pub price_errors : ℤ → List FieldError
price_errors price =
    if ltb_ℤ price min_price
    then problem "price" (min_message min_price)
    else if ltb_ℤ max_price price
    then problem "price" (max_message max_price)
    else []

unfoldable pub stock_errors : ℤ → List FieldError
stock_errors stock = if ltb_ℤ stock min_stock then problem "stock" (min_message min_stock) else []

unfoldable pub report : List FieldError → Result (Unit {0})
report [] = ok tt
report (e ∷ errors) = err (validation (e ∷ errors))

unfoldable pub validate_item_input : ItemInput → Result (Unit {0})
unfolding report name_errors price_errors stock_errors
validate_item_input input =
    report (name_errors input.name ++ price_errors input.price ++ stock_errors input.stock)

-- What a stored item is to be: a name of 1 to 40 characters once it is trimmed, and a price and a stock
-- in their ranges.
pub record IsAcceptable (input : ItemInput) : Type 0 where
  pub named : 1 ≤ char_count (trim input.name)
  pub short : char_count (trim input.name) ≤ 40
  pub price_min : ltb_ℤ input.price (pos 0) ≡ false
  pub price_max : ltb_ℤ (pos 99999) input.price ≡ false
  pub stocked : ltb_ℤ input.stock (pos 0) ≡ false

-- An input is accepted exactly when its name has 1 to 40 characters once it is trimmed, its price is 0 to
-- 99999 and its stock is not negative.
pub validate_item_input-IsAcceptable :
    (input : ItemInput) → (validate_item_input input ≡ ok tt) ↔ IsAcceptable input
unfolding validate_item_input
validate_item_input-IsAcceptable input = (
  ground (arith, is_empty-count (trim input.name)),
  λ a. ground (arith, is_empty-count (trim input.name)),
)

report-cases :
    (errors : List FieldError)
    → (report errors ≡ ok tt) ⊎ ((es : List FieldError) × (report errors ≡ err (validation es)))
unfolding report
report-cases [] = inl refl
report-cases (e ∷ errors) = inr (e ∷ errors, refl)

pub validate_item_input-cases :
    (input : ItemInput)
    → (validate_item_input input ≡ ok tt)
      ⊎ ((es : List FieldError) × (validate_item_input input ≡ err (validation es)))
unfolding validate_item_input
validate_item_input-cases input =
    report-cases (name_errors input.name ++ price_errors input.price ++ stock_errors input.stock)
