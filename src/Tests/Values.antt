-- ===== src/Tests/Values.antt =====
-- Runs of the conversions of result and parameter values.
use milvus_sql_proxy.Base.{
  true, false, ◌≡◌, refl, List, [], ◌∷◌, Bytes, codes, ok, some, pos, negsuc, arith, inr,
}
use milvus_sql_proxy.Value.{Value, signed, int8, int64, string, null}
use milvus_sql_proxy.Resultset.{Resultset, build_resultset, type_longlong, type_null, no_flags}
use milvus_sql_proxy.Wire.{pg_value, pg_parameter}
use milvus_sql_proxy.Wire.RoundTrip.{pg_parameter-pg_value}
use milvus_sql_proxy.Tests.{library}

pg_parameter-pg_value_example :
    (text : Bytes) × (pg_value library (signed int8 (negsuc 6)) 20 1 ≡ ok (some text))
    × (pg_parameter library (some text) 20 1 ≡ ok (signed int64 (negsuc 6)))
pg_parameter-pg_value_example =
    pg_parameter-pg_value library int8 (negsuc 6) (omega arith) 1 (inr refl)

abbrev rows : List (List Value)
rows = (signed int64 (pos 1) ∷ null ∷ []) ∷ (signed int64 (pos 2) ∷ string (codes "b") ∷ []) ∷ []

abbrev result : Resultset
result = record {
  fields =
      (record {
        name = codes "id";
        type = type_longlong;
        charset = 63;
        flag = record { is_binary = true; is_not_null = true; is_unsigned = false };
      })
      ∷ (record { name = codes "n"; type = type_null; charset = 33; flag = no_flags })
      ∷ [];
  values = rows;
}

built : build_resultset [] (codes "id" ∷ codes "n" ∷ []) rows ≡ ok result
unfolding build_resultset
built = refl
