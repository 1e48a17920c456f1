-- ===== src/Prelude/Texts.antt =====
-- Texts of messages: template literals and `Array.prototype.join`.
use Prim.Native.String as Native
use Prim.Native.String.{String}
use mathlib.Core.List.{List, [], ◌∷◌}

infixr 65 ◌<>◌
abbrev pub ◌<>◌ : String → String → String
s <> t = Native.◌++◌ s t

abbrev pub join : String → List String → String
join separator [] = ""
join separator (s ∷ []) = s
join separator (s ∷ (t ∷ rest)) = s <> separator <> join separator (t ∷ rest)
