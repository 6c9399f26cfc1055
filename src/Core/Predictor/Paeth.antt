-- ===== src/Core/Predictor/Paeth.antt =====
-- `paeth` of `pdf/core/paeth.go` as the PNG specification describes it.
use unidoc.Prelude.{ℕ, ◌+◌, ◌≤◌, ◌<◌, ◌≡◌, ◌⊎◌, arith}
use unidoc.Core.Predictor.{distance, paeth}

-- `paeth` gives the one of the three neighbours a (left), b (above) and c (above and left) that is
-- nearest to a + b - c, and of two that are equally near the first: the distance of r to a + b - c is
-- that of a + b to c + r.
pub paeth-nearest :
    (a b c : ℕ)
    → ((paeth a b c ≡ a)
        × (distance (a + b) (c + a) ≤ distance (a + b) (c + b))
        × (distance (a + b) (c + a) ≤ distance (a + b) (c + c)))
      ⊎ ((paeth a b c ≡ b)
          × (distance (a + b) (c + b) ≤ distance (a + b) (c + c))
          × ((distance (a + b) (c + b) < distance (a + b) (c + a))
              ⊎ (distance (a + b) (c + c) < distance (a + b) (c + a))))
      ⊎ ((paeth a b c ≡ c)
          × (distance (a + b) (c + c) < distance (a + b) (c + b))
          × (distance (a + b) (c + c) < distance (a + b) (c + a)))
unfolding paeth
paeth-nearest a b c = ground arith
