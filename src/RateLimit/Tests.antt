-- ===== src/RateLimit/Tests.antt =====
-- The bucket at some requests: 1 token a second, and room for 2.
use nudgeon_platform.Common.{
  ◌+◌, ◌-◌, ◌*◌, ◌≤◌, ◌≡◌, refl, arith, true, false, List, [], ◌∷◌, none, template,
}
use nudgeon_platform.RateLimit.{current, spend, take_token, LayerConfig, check_layers, check}
use nudgeon_platform.RateLimit.Bound.{allowed_count, allowed_count-bound}

runs : Unit {0}
unfolding current spend take_token check_layers check allowed_count template
runs = tt

bucket_tests :
    (allowed_count 1 2 (1000 ∷ 1001 ∷ 1002 ∷ 2001 ∷ 2002 ∷ []) none ≡ 3)
    × ((take_token 1 2 1000 1 none).remaining ≡ 1)
    × ((take_token 4 0 1000 1 none).retry_ms ≡ 250)
unfolding runs
bucket_tests = (refl, refl, refl)

abbrev layers : List LayerConfig
layers =
    record { name = "tenant"; key = "t:1"; rps = 1; burst = 2 }
    ∷ record { name = "key"; key = "k:1"; rps = 5; burst = 1 }
    ∷ []

check_tests :
    ((check 1000 layers []).0.layer ≡ "key")
    × ((check 1000 layers []).0.allowed ≡ true)
    × ((check 1001 layers (check 1000 layers []).1).0.allowed ≡ false)
    × ((check 1001 layers (check 1000 layers []).1).0.layer ≡ "key")
    × ((check 1001 [] []).0.layer ≡ "none")
unfolding runs
check_tests = (refl, refl, refl, refl, refl)

allowed_count-bound_example : 3 * 1000 ≤ 2 * 1000 + (2002 - 1000) * 1
unfolding runs
allowed_count-bound_example =
    allowed_count-bound 1 2 1000 (1000 ∷ 1001 ∷ 1002 ∷ 2001 ∷ 2002 ∷ []) 2002 none (omega arith)
      (omega arith, (omega arith, (omega arith, (omega arith, (omega arith, omega arith)))))
