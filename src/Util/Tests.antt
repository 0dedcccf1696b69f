-- ===== src/Util/Tests.antt =====
-- Powers of two at concrete numbers.
use libtrp.Base.{◌≡◌, refl, arith}
use libtrp.Util.{smear, near_pwr2_64}
use libtrp.Util.Power.{IsLeastPower, near_pwr2_64-IsLeastPower}

power_of_100 : near_pwr2_64 100 ≡ 128
unfolding near_pwr2_64 smear
power_of_100 = refl

near_pwr2_64-IsLeastPower_example : IsLeastPower 100 (near_pwr2_64 100)
near_pwr2_64-IsLeastPower_example = near_pwr2_64-IsLeastPower 100 (omega arith) (omega arith)
