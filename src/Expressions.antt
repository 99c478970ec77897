-- ===== src/Expressions.antt =====
-- src/expressions.c: the stacks of numbers and operators, and the evaluation of infix expressions.
pub mod Stacks
pub mod Calc
pub mod Eval
pub mod Contents
pub mod Tree
pub mod Pending
pub mod Inputs
pub mod Leaves
pub mod Precedence
pub mod Power
pub mod Termination
pub mod Rubout
