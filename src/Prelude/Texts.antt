-- ===== src/Prelude/Texts.antt =====
-- Texts joined, as a template literal joins them.
use Prim.Native.String
use Prim.Native.String.{String}

infixr 66 ◌<>◌
unfoldable pub ◌<>◌ : String → String → String
s <> t = String.◌++◌ s t
