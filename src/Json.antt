-- ===== src/Json.antt =====
-- JSON values as `json.load` returns them. A float is kept as the literal in the text: what the
-- interpreter does with such a literal is a parameter (`Python`).
use bay.Prelude.{ℕ, String, Bool, true, false, not, Option, none, some, List, [], ◌∷◌, ◌==◌, nat_eq}
use bay.Prelude.Assoc.{Assoc, lookup}
use bay.Prelude.Int.{ℤ, pos, negsuc}
use bay.Prelude.Result.{Result}
use bay.Prelude.Text.{is_empty}

mutual
  pub data Fields : Type 0 where
    end : Fields
    field : (key : String) (value : Value) (rest : Fields) → Fields

  pub data Value : Type 0 where
    null : Value
    text : String → Value
    bool : Bool → Value
    int : ℤ → Value
    float : String → Value
    obj : Fields → Value
    arr : Items → Value

  pub data Items : Type 0 where
    nil : Items
    cons : (head : Value) (tail : Items) → Items

-- What the interpreter does with a float, and `str(v)` of a value that is no text.
pub record Python : Type 0 where
  pub show : Value → String
  -- `x != 0.0`
  pub nonzero : String → Bool
  -- `x > 0`
  pub positive : String → Bool
  -- `x == float("inf")`
  pub infinite : String → Bool
  -- `int(x)`; `none` where it raises
  pub truncate : String → Option ℤ
  -- `int(v)` of a value that is no int
  pub int_of : Value → Result ℤ
  -- `int(total)`, for the sum of the products `float(number) * unit`
  pub sum_of : List (String × ℕ) → Result ℤ
  -- `float(n)`
  pub to_float : ℤ → Result String
  -- `repr(v)`
  pub repr : Value → String

unfoldable pub items : Items → List Value
items nil = []
items (cons v l) = v ∷ items l

unfoldable pub fields : Fields → Assoc Value
fields end = []
fields (field k v l) = (k, v) ∷ fields l

module _ (py : Python) where
  -- `bool(v)`
  unfoldable pub truthy : Value → Bool
  truthy null = false
  truthy (bool b) = b
  truthy (int (pos n)) = not (n == 0)
  truthy (int (negsuc n)) = true
  truthy (float x) = py.nonzero x
  truthy (text s) = not (is_empty s)
  truthy (arr nil) = false
  truthy (arr (cons v l)) = true
  truthy (obj end) = false
  truthy (obj (field k v l)) = true

  -- `str(v)`
  unfoldable pub str : Value → String
  str (text s) = s
  str null = py.show null
  str (bool b) = py.show (bool b)
  str (int n) = py.show (int n)
  str (float x) = py.show (float x)
  str (arr l) = py.show (arr l)
  str (obj l) = py.show (obj l)

  -- `v` of `d.get(k) or …` if it is truthy
  unfoldable pub get_truthy : String → Assoc Value → Option Value
  unfolding truthy
  get_truthy k d = elim (lookup k d) [
    | none ↦ none
    | some v ↦ elim (truthy v) [ true ↦ some v | false ↦ none ]
  ]
