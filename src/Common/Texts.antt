-- ===== src/Common/Texts.antt =====
-- Texts: when two are equal, and which are truthy.
use Prim.Native.String.{String}
use text.Mathlib.Text.{◌==◌ as str_eq}
use text.Mathlib.TextEquality.{eq_iff}
use mathlib.Core.Path.{◌≡◌, refl, sym, ap, ◌∙◌}
use mathlib.Core.Bool.{Bool, true, false, false≢true}
use mathlib.Core.Option.{Option, none, some, some-injective}

dec_of_test : (s t : String) (b : Bool) → str_eq s t ≡ b → Dec (s ≡ t)
dec_of_test s t true e = yes ((eq_iff s t).0 e)
dec_of_test s t false e = no (λ p. false≢true (sym e ∙ (eq_iff s t).1 p))

unfoldable pub String_discrete : Discrete String
unfolding dec_of_test
String_discrete s t = dec_of_test s t (str_eq s t) refl

unfoldable pub Turn_discrete : Discrete (Option String)
unfolding String_discrete
Turn_discrete none none = yes refl
Turn_discrete none (some t) = no (λ e. cc)
Turn_discrete (some s) none = no (λ e. cc)
Turn_discrete (some s) (some t) = elim (String_discrete s t) [
  | yes p ↦ yes (ap some p)
  | no n ↦ no (λ e. n (some-injective s t e))
]

-- JavaScript's truthiness of a text: all but the empty one.
unfoldable pub non_empty : String → Bool
non_empty String.[] = false
non_empty (String.◌∷◌ c s) = true

pub non_empty-empty : non_empty "" ≡ false
unfolding non_empty
non_empty-empty = refl
