-- ===== src/Query.antt =====
-- include/vectortick/query/ast.hpp: expressions of the query language. A name is its bytes; lines and
-- columns, which only messages use, are left out.
pub mod Tokens
pub mod Meaning
pub mod Columns
pub mod Words
use vector_tick.Common.{
  ℕ, List, ◌==◌, leb, ◌&&◌, ◌-◌, ◌+◌, if◌then◌else◌, Bool, true, false, [], ◌∷◌, map,
}
use vector_tick.Query.Tokens.{TokenType}
use Prim.Native.Char.{code}
use Prim.Native.String.{String}

abbrev pub Name : Type 0
Name = List ℕ

-- The bytes of a text.
abbrev pub codes : String → Name
codes String.[] = []
codes (String.◌∷◌ c s) = code c ∷ codes s

-- std::toupper and std::tolower of a byte in the C locale
unfoldable pub to_upper : ℕ → ℕ
to_upper c = if leb b'a' c && leb c b'z' then c - 32 else c

unfoldable pub to_lower : ℕ → ℕ
to_lower c = if leb b'A' c && leb c b'Z' then c + 32 else c

unfoldable pub same_name : Name → Name → Bool
same_name [] [] = true
same_name (a ∷ xs) (b ∷ ys) = a == b && same_name xs ys
same_name _ _ = false

mutual
  -- A null pointer to an expression is `missing`.
  pub data Expression : Type 0 where
    missing : Expression
    literal : (value : ℕ) → Expression
    column_ref : (name : Name) → Expression
    binary_op : (op : TokenType) (left right : Expression) → Expression
    unary_op : (op : TokenType) (operand : Expression) → Expression
    function_call : (name : Name) (args : Expressions) → Expression

  pub data Expressions : Type 0 where
    no_args : Expressions
    arg : Expression → Expressions → Expressions

pub record SelectItem : Type 0 where
  pub expr : Expression
  pub alias : Name
  pub is_wildcard : Bool

pub record QueryStmt : Type 0 where
  pub projections : List SelectItem
  pub table_name : Name
  pub where_expr : Expression
  pub let_bindings : List (Name × Expression)
  pub group_by_columns : List Name
  pub tumble_window : Expression
  pub aggregations : List (Name × Expression)
  pub order_by : List (Name × Bool)
  pub limit : ℕ
