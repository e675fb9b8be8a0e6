-- ===== src/Hft/FlatMap/Keys.antt =====
-- The keys that the engine uses: FixedString texts, compared as their views.
use latentspeed.Prelude.Bytes.{
  Bytes, str_eq, str_lt, str_eq_iff, str_lt_irrefl, str_lt_trans, str_lt_total,
}
use latentspeed.Hft.FlatMap.{KeyOrd}

instance abbrev pub bytes_ord : KeyOrd Bytes
bytes_ord = record {
  lt = str_lt;
  eq = str_eq;
  eq_iff = str_eq_iff;
  lt_irrefl = str_lt_irrefl;
  lt_trans = str_lt_trans;
  lt_total = str_lt_total;
}
