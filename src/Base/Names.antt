-- ===== src/Base/Names.antt =====
-- Lists of texts searched by `==`.
use Prim.Native.String.{String}
use mathlib.Core.Path.{◌≡◌}
use mathlib.Core.Logic.{◌↔◌}
use mathlib.Core.Bool.{true}
use mathlib.Core.List.{List, Memᴰ}
use text.Mathlib.Text.{◌==◌}
use text.Mathlib.TextEquality.{eq_iff}
use text.Mathlib.TextPositions.{eq_refl}
use stelliberty_m.Base.Lists.{any, any-mem, any-of_mem}

pub any-eq_iff :
    (name : String) (xs : List String) → (any (λ x. x == name) xs ≡ true) ↔ Memᴰ name xs
any-eq_iff name xs = (
  λ h.
      let (a, m, e) = any-mem (λ x. x == name) xs h in
      let same : a ≡ name = (eq_iff a name).0 e in rw same at m,
  λ m. any-of_mem (λ x. x == name) xs name m (eq_refl name),
)
