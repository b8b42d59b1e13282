-- ===== src/Base/Json/Distinct.antt =====
-- Values whose dicts hold no key twice, which are those that Python has.
use mathlib.Core.Bool.{Bool, true, not, ◌&&◌}
use agentic_temporal_wf.Base.Tests.{is_some}
use agentic_temporal_wf.Base.Json.{
  Json, Items, Fields, nil, cons, array, object, end, field, find_field,
}

unfoldable mutual
  unfolding find_field

  pub distinct : Json → Bool
  distinct (array xs) = distinct_items xs
  distinct (object fs) = distinct_fields fs
  distinct v = true

  pub distinct_items : Items → Bool
  distinct_items nil = true
  distinct_items (cons x xs) = distinct x && distinct_items xs

  pub distinct_fields : Fields → Bool
  distinct_fields end = true
  distinct_fields (field k v fs) =
      not (is_some (find_field k fs)) && distinct v && distinct_fields fs
