-- ===== src/Schemas/ErrorScenarios/Template.antt =====
-- Python's `str.format` with keyword arguments, on a template that is already split at its holes.
use transcribe_service.Prelude.{String, List, [], ◌∷◌, ◌==◌, if◌then◌else◌}
use transcribe_service.Prelude.Exec.{Result, ok, err, key_error}
use Prim.Native.String

-- `{name}` is a hole that takes `str(value)`, `{name!r}` one that takes `repr(value)`.
pub data Segment : Type 0 where
  lit hole repr_hole : String → Segment

pub record Argument : Type 0 where
  pub as_str : String
  pub as_repr : String

abbrev pub Kwargs : Type 0
Kwargs = List (String × Argument)

abbrev pub argument : String → Kwargs → Result Argument
argument name [] = err (key_error name)
argument name ((k, v) ∷ rest) = if k == name then ok v else argument name rest

abbrev render : Segment → Kwargs → Result String
render (lit s) kwargs = ok s
render (hole name) kwargs = elim (argument name kwargs) [ ok a ↦ ok a.as_str | err e ↦ err e ]
render (repr_hole name) kwargs = elim (argument name kwargs) [ ok a ↦ ok a.as_repr | err e ↦ err e ]

abbrev join : Result String → Result String → Result String
join (ok s) (ok t) = ok (String.◌++◌ s t)
join (ok s) (err e) = err e
join (err e) r = err e

unfoldable pub format : List Segment → Kwargs → Result String
format [] kwargs = ok ""
format (segment ∷ rest) kwargs = join (render segment kwargs) (format rest kwargs)
