-- ===== src/Sql.antt =====
-- src/core/sql_utils.cpp: quoting, splitting and naming of SQL texts, and the JSON in which
-- src/core/refresh_metadata.cpp keeps its metadata.
pub mod Chars
pub mod Json
pub mod JsonRoundTrip
pub mod Split
pub mod SplitLaws
pub mod Comments
pub mod CommentLaws
pub mod Names
pub mod NamesLaws
mod Tests
