-- ===== src/Common/Preorder.antt =====
-- Preorders, which the theorems on what may become of a database are about.
pub record IsPreorder {S : Type 0} (R : S → S → Type 0) : Type 0 where
  pub same : (s : S) → R s s
  pub trans : (s u v : S) → R s u → R u v → R s v
