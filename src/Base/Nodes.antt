-- ===== src/Base/Nodes.antt =====
-- What the compiler decides about the node type of a list.
use Prim.Native.Nat.{ℕ, ◌<◌}

-- The size of a node in bytes, and the value of its data when all its bytes are 0.
pub record Layout {ℓ} (A : Type ℓ) : Type ℓ where
  pub size_of : ℕ
  pub size_pos : 0 < size_of
  pub zero_data : A
