-- ===== src/Application/Examples.antt =====
-- Runs of the canonical JSON.
use jungle_challenge.Common.{◌≡◌, refl}
use jungle_challenge.Application.CanonicalJson.{
  null, text, object, array, item, end, nil, member, canonical_json, sort_deep, stringify, quote,
}

-- Keys are sorted at every depth, and arrays keep their order.
canonical_sorted :
    canonical_json (
      object (
        member "b"
          (object (member "y" null (member "x" (text "2") nil)))
          (member "a" (array (item (text "q") (item (text "p") end))) nil)))
    ≡ canonical_json (
        object (
          member "a"
            (array (item (text "q") (item (text "p") end)))
            (member "b" (object (member "x" (text "2") (member "y" null nil))) nil)))
unfolding canonical_json sort_deep stringify quote
canonical_sorted = refl
