-- ===== src/Value.antt =====
-- include/cscript/value.h: what a value of the language is, as the tagged union has it.
use cscript.Prelude.{ℕ, Bool, true, false}

-- A number is the bit pattern of its double, an object the address of its header.
pub data Value : Type 0 where
  undefined : Value
  null : Value
  boolean : Bool → Value
  number : ℕ → Value
  object : ℕ → Value

-- `IS_NULL`
abbrev pub is_null : Value → Bool
is_null null = true
is_null v = false
