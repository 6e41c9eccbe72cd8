-- ===== src/Prelude/Text.antt =====
-- Texts one behind the other
use Prim.Native.String.{String}
use Prim.Native.String

infixr 65 ◌+++◌
abbrev pub ◌+++◌ : String → String → String
s +++ t = String.◌++◌ s t
