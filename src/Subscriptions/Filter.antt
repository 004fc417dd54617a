-- ===== src/Subscriptions/Filter.antt =====
-- src/subscriptions/filter.rs: the expressions of the filter language and their evaluation.
-- Text is its UTF-8 bytes. The lexer and the parser are the children.
pub mod Lexer
pub mod Parser
pub mod Fuel
use deltio.Prelude.{
  Bool, Bytes, Option, bytes_eq, false, if◌then◌else◌, is_some, lookup, none, not, some,
  starts_with, ◌&&◌, ◌||◌, bytes_eq_instance,
}
use deltio.Topics.Message.{Attributes}

pub data Expr : Type 0 where
  equals : Bytes → Bytes → Bool → Expr
  has_prefix : Bytes → Bytes → Expr
  has_attr : Bytes → Expr
  both : Expr → Expr → Expr
  either : Expr → Expr → Expr
  negation : Expr → Expr

pub record Filter : Type 0 where
  pub expr : Expr

-- The value of an attribute of a message that may have none at all.
abbrev pub attribute : Option Attributes → Bytes → Option Bytes
attribute none key = none
attribute (some attrs) key = lookup key attrs

abbrev value_is : (Bytes → Bool) → Option Bytes → Bool
value_is p none = false
value_is p (some v) = p v

eval : Expr → Option Attributes → Bool
eval (equals key value negated) attrs =
    let eq = value_is (λ v. bytes_eq v value) (attribute attrs key) in
    if negated then not eq else eq
eval (has_prefix key value) attrs = value_is (λ v. starts_with v value) (attribute attrs key)
eval (has_attr key) attrs = is_some (attribute attrs key)
eval (both l r) attrs = eval l attrs && eval r attrs
eval (either l r) attrs = eval l attrs || eval r attrs
eval (negation e) attrs = not (eval e attrs)

unfoldable pub matches : Filter → Option Attributes → Bool
unfolding eval
matches f attrs = eval f.expr attrs
