-- ===== src/DslEval/Syntax.antt =====
-- Tokens, expressions and the values of a snapshot.
use crapssim_control.Prelude.{ℕ, String, Bool}
use crapssim_control.Prelude.Int.{ℤ}

-- `num / 10 ^ places`: an `int` has no places, and a decimal is read exactly.
pub record Number : Type 0 where
  pub num : ℤ
  pub places : ℕ

pub data Comparison : Type 0 where
  lt gt le ge equal unequal : Comparison

pub data Connective : Type 0 where
  and_op or_op : Connective

-- A token with its type; the text of a number, a string or a Boolean is already read.
pub data Token : Type 0 where
  lparen rparen and_word or_word not_word : Token
  op : Comparison → Token
  bool_word : Bool → Token
  number : Number → Token
  text : String → Token
  dotted : String → Token

-- The nodes of the AST, by their `type`.
pub data Node : Type 0 where
  var : String → Node
  bool : Bool → Node
  num : Number → Node
  str : String → Node
  negated : Node → Node
  bin : Connective → Node → Node → Node
  cmp : Comparison → Node → Node → Node

-- A key of a dict.
pub data Key : Type 0 where
  name : String → Key
  index : ℕ → Key

-- A value of a snapshot, which is a dict of such values.
mutual
  pub data Value : Type 0 where
    none_value : Value
    bool_value : Bool → Value
    num_value : Number → Value
    str_value : String → Value
    dict_value : Fields → Value

  pub data Fields : Type 0 where
    end : Fields
    field : Key → Value → Fields → Fields
