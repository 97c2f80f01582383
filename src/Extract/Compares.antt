-- ===== src/Extract/Compares.antt =====
-- What `ExtractFilteredGroupCount` of src/core/parser_sql_extractors.cpp has seen when it returns a result.
use openivm.Base.{◌≡◌, Bool, true, ◌||◌, Bytes, bytes_eq, codes}
use openivm.Extract.Tokens.{is_zero_sql_literal}
use openivm.Extract.Filtered.{FilteredGroupCountExtract}
use openivm.Extract.WhereColumn.{Compares}
use openivm.Extract.SumItem.{IsSum}

module _ (trim lower : Bytes → Bytes) (ci_equals : Bytes → Bytes → Bool) (sql : Bytes) where
  -- The checks on what both loops found.
  abbrev pub Checked : Bytes → FilteredGroupCountExtract → Type 0
  Checked output_col e =
      IsSum trim lower ci_equals sql (record {
        source = e.source;
        group_col = e.group_col;
        sum_col = e.sum_col;
        sum_alias = e.sum_alias;
      })
      × Compares trim lower ci_equals sql e.sum_alias
          (record { comparison_op = e.comparison_op; threshold_sql = e.threshold_sql })
      × ((bytes_eq e.comparison_op (codes "<") || bytes_eq e.comparison_op (codes ">")) ≡ true)
      × (is_zero_sql_literal trim e.threshold_sql ≡ true)
      × (e.output_col ≡ output_col)
