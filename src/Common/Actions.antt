-- ===== src/Common/Actions.antt =====
-- A call of code outside the model: it returns or raises, and changes the world.
use atlas_gateway.Common.Results.{Result}

abbrev pub Action : Type 0 → Type 0 → Type 0 → Type 0
Action W E A = W → Result E A × W
