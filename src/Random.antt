-- ===== src/Random.antt =====
-- What the padding processor uses of <random>: `std::mt19937_64` and a
-- `std::uniform_int_distribution<uint32_t>` whose lower bound is 0.
use msg.Prelude.{ℕ, ◌≤◌}

pub record Random : Type 1 where
  pub Engine : Type 0
  -- the engine's constructor from a seed
  pub engine : ℕ → Engine
  -- `dist(0, bound)(rng)`: a draw, and the engine after it
  pub draw : ℕ → Engine → ℕ × Engine
  -- the standard's contract of the distribution
  pub draw-le : (bound : ℕ) (e : Engine) → (draw bound e).0 ≤ bound
