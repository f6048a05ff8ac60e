-- ===== src/Backends/Text.antt =====
-- Texts of stdiobus/backends that are cut or decoded, as lists of code points, and the calls of the
-- message handlers with them.
use stdiobus_python.Base.{ℕ, List, map}

abbrev pub Text : Type 0
Text = List ℕ

-- A call of a message handler.
pub record Handled : Type 0 where
  pub handler : ℕ
  pub line : Text

abbrev pub handled_all : List ℕ → Text → List Handled
handled_all hs l = map (λ h. record { handler = h; line = l }) hs
