-- ===== src/Base/Given.antt =====
-- The value of a property or a parameter that may be left out: JavaScript tells `undefined` from `null`.
use mathlib.Core.Option.{Option, none, some}

pub data Given (A : Type 0) : Type 0 where
  missing is_null : Given A
  given : A → Given A

-- What `x ?? d` and `x?.f` read: both count as no value.
abbrev pub to_option : {A : Type 0} → Given A → Option A
to_option (given a) = some a
to_option _ = none
