-- ===== src/Prelude/Texts.antt =====
-- Methods of Python's `str` that read the tables of Unicode: a parameter.
use Prim.Native.String.{String}

pub record Texts : Type 0 where
  pub strip : String → String
  pub upper : String → String
  pub lower : String → String
