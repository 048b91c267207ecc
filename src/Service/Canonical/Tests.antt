-- ===== src/Service/Canonical/Tests.antt =====
-- An object whose members come in two orders.
use wats.Base.{◌≡◌, true, arith}
use wats.Base.Json.{Json, null, bool, obj, end, field}
use wats.Base.Text.{codes}
use wats.Service.Canonical.{bounded_canonical_json}
use wats.Service.Canonical.Order.{Reordered, in_fields, exchange, bounded_canonical_json-Reordered}

abbrev one_way : Json
one_way = obj (field (codes "b") null (field (codes "a") (bool true) end))

abbrev other_way : Json
other_way = obj (field (codes "a") (bool true) (field (codes "b") null end))

one_way-other_way : Reordered one_way other_way
one_way-other_way =
    in_fields _ _ (exchange (codes "b") (codes "a") null (bool true) end (ground arith))

bounded_canonical_json-Reordered_example :
    bounded_canonical_json one_way 0 ≡ bounded_canonical_json other_way 0
bounded_canonical_json-Reordered_example =
    bounded_canonical_json-Reordered one_way other_way 0 one_way-other_way
