-- ===== src/Connmap/Init.antt =====
-- `connmap_init`.
use native.Mathlib.Decide.{dec_lt}
use native.Mathlib.Nat.{pow-le-pow_right}
use libtrp.Base.{
  ℕ, ◌+◌, ◌-◌, ◌^◌, ◌≤◌, ◌<◌, ◌≡◌, refl, ap, arith, inl, none, [], ltb, ◌==◌, if◌then◌else◌,
}
use libtrp.Util.Power.{near_pwr2_64-IsLeastPower}
use libtrp.Connmap.{Ids, init, max_conn}
use libtrp.Connmap.Inv.{stop, IsValid, view}

abbrev clamped : ℕ → ℕ
clamped max = let max = if max == 0 then 1 else max in if ltb max_conn max then max_conn else max

clamped_bounds : (max : ℕ) → (0 < clamped max) × (clamped max ≤ 2 ^ 31)
clamped_bounds max = ground arith

exponent_le : (e : ℕ) → 2 ^ e ≤ 2 ^ 31 → e ≤ 31
exponent_le e h = elim (dec_lt 31 e) [
  | yes p ↦
      absurd
        (omega (arith, h, pow-le-pow_right {n = 2} (omega arith) {i = 32} {j = e} (omega arith)))
  | no p ↦ omega (arith, p)
]

fits : (max : ℕ) → max ≤ 2 ^ 31 → max ≤ clamped max
fits max h = ground arith

-- Whatever the number of connections asked for, the map is valid and maps nothing, and it has room for at
-- least that many, or for 2^31.
pub init_lem :
    (max : ℕ) (ids : Ids)
    → IsValid (init max) ids
      × ((id : ℕ) → view id (init max) ids ≡ none)
      × ((max ≤ 2 ^ 31 → max ≤ (init max).mask + 1) × ((init max).mask < 2 ^ 31))
unfolding init
init_lem max ids =
    let (lo, hi) = clamped_bounds max in
    let p = near_pwr2_64-IsLeastPower (clamped max) lo (omega (arith, hi)) in
    let top = p.least 31 hi in
    (
      record {
        k = p.exponent;
        le = exponent_le p.exponent (omega (arith, p.power, top));
        mask = ap (λ n. n - 1) p.power;
        j = 0;
        cap = inl (refl, refl);
        len = refl;
        chain = [];
        free = stop;
        rest = omega arith;
        size = refl;
        home = λ i c q. ground (arith, q);
      },
      λ id. refl,
      (λ h. ground (arith, h, p.above, fits max h), omega (arith, top, p.above, lo)),
    )
