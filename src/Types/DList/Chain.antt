-- ===== src/Types/DList/Chain.antt =====
-- What a `list` of list.c stands for, in three parts: the predicate (Defs), the laws of chains of
-- nodes (Links), and facts about their ends and lengths (Ends).
mod Defs
mod Links
mod Ends
pub use Defs.*
pub use Links.*
pub use Ends.*
