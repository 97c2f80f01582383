-- ===== src/Sql/NamesLaws.antt =====
-- The names that src/core/sql_utils.cpp gives to delta tables.
use openivm.Base.{
  ◌≡◌, ◌≢◌, refl, true, ◌&&◌, [], ◌∷◌, ◌++◌, Bytes, ltb, length, drop, Bool-cases, inl, inr, arith,
}
use openivm.Sql.Json.{after_prefix}
use openivm.Sql.Names.{data_prefix, delta_prefix, has_prefix, delta_name, is_delta}

is_delta-prefix : (name : Bytes) → is_delta (delta_prefix ++ name) ≡ true
unfolding is_delta after_prefix
is_delta-prefix name = ground arith

-- A view and its data table have the same delta table, unless the data table's name is the bare
-- prefix.
delta_name-data_prefix :
    (name : Bytes) → name ≢ [] → delta_name (data_prefix ++ name) ≡ delta_prefix ++ name
unfolding delta_name after_prefix
delta_name-data_prefix [] some_name = absurd (some_name refl)
delta_name-data_prefix (c ∷ name) some_name = ground arith

-- The name of every delta table is known as one.
pub is_delta-delta_name : (name : Bytes) → is_delta (delta_name name) ≡ true
unfolding delta_name
is_delta-delta_name name =
    elim (Bool-cases
      (ltb (length data_prefix) (length name) && has_prefix (after_prefix data_prefix name))) [
        | inl e ↦ rw e (is_delta-prefix (drop 13 name))
        | inr e ↦ rw e (is_delta-prefix name)
      ]
