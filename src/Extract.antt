-- ===== src/Extract.antt =====
-- src/core/parser_sql_extractors.cpp: the scanners that find keywords, parentheses, identifiers and
-- literals in the text of a view's query, and what is extracted with them.
pub mod Chars
pub mod Keywords
pub mod KeywordLaws
pub mod Parens
pub mod ParenLaws
pub mod Tokens
pub mod TokenLaws
pub mod Select
pub mod Filtered
pub mod FilteredLaws
pub mod SemiAnti
pub mod SemiAntiLaws
pub mod Exists
pub mod WhereColumn
pub mod SumItem
pub mod Compares
mod Tests
