-- ===== src/Seed/Shares.antt =====
-- The numbers of employees that the generator gives to the tenants.
use employee_compliance_saas.Common.{ℕ, ◌+◌, ◌-◌, ◌≤◌, ◌≡◌, ap, List, [], ◌∷◌, arith, map}
use employee_compliance_saas.Common.Int.{ℤ, pos, sub_ℕ}
use employee_compliance_saas.Seed.{sum, share, distribute}

-- The shares of the tenants, none of them below 0.
record Shares (total : ℕ) (counts : List ℤ) : Type 0 where
  numbers : List ℕ
  natural : counts ≡ map pos numbers
  add_up : sum numbers ≡ total

absorbed : (a rest total : ℕ) → rest ≤ total → sub_ℕ (a + total) (a + rest) ≡ pos (total - rest)
absorbed a rest total h = ground (arith, h)

-- `--count=total` is split into a number of employees for each of the five tenants that is not
-- negative, and these numbers add up to the total.
distribute-Shares : (total : ℕ) → Shares total (distribute total)
unfolding distribute
distribute-Shares total =
    let a = share total 100000 50000 in
    let b = share total 100000 25000 in
    let c = share total 100000 15000 in
    let d = share total 100000 7000 in
    let e = share total 100000 3000 in
    let few : b + (c + (d + (e + 0))) ≤ total = omega arith in
    record {
      numbers = (total - (b + (c + (d + (e + 0))))) ∷ b ∷ c ∷ d ∷ e ∷ [];
      natural =
          ap (λ first. first ∷ map pos (b ∷ c ∷ d ∷ e ∷ []))
            (absorbed a (b + (c + (d + (e + 0)))) total few);
      add_up = omega (arith, few);
    }
