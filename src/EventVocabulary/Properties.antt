-- ===== src/EventVocabulary/Properties.antt =====
-- src/session-events/openma.ts: the tests of single properties decide their predicates, and how the
-- decisions of several tests combine.
use openma_common.Common.{
  Among, ap, ℕ, ◌≤◌, String, Bool, true, false, ◌&&◌, Option, none, some, List, [], ◌∷◌,
  if◌then◌else◌, ◌≡◌, refl, arith, ◌≢◌, ◌⊎◌, ◌↔◌, inl, inr, leb, non_empty, String_discrete,
}
use openma_common.Common.Json.{Json, null, bool, num, str, arr, obj, natural, other, Fields}
use openma_common.Common.Maps.{has}
use openma_common.EventVocabulary.{
  is_text, is_text_of, is_full_text, optional_string, optional_seq, is_there, record_value,
}
use openma_common.EventVocabulary.Spec.{
  IsText, IsFullText, IsOneOf, IsThere, IsOptional, IsObjectThat, IsSeq,
}

pub never : (false ≡ true) ↔ ⊥
never = (λ e. ground (arith, e), λ n. elim n [ ])

pub always : ◌↔◌ {0, 0} (true ≡ true) Unit
always = (λ e. tt, λ u. refl)

pub and_iff :
    {P Q : Type 0} (a b : Bool) → (a ≡ true) ↔ P → (b ≡ true) ↔ Q → ((a && b) ≡ true) ↔ (P × Q)
and_iff true b p q = (λ e. (p.0 refl, q.0 e), λ h. q.1 h.1)
and_iff false b p q = (λ e. ground (arith, e), λ h. p.1 h.0)

pub if_iff :
    {P Q : Type 0} (a b : Bool)
    → (a ≡ true) ↔ P
    → (b ≡ true) ↔ Q
    → ((if a then b else false) ≡ true) ↔ (P × Q)
if_iff true b p q = (λ e. (p.0 refl, q.0 e), λ h. q.1 h.1)
if_iff false b p q = (λ e. ground (arith, e), λ h. p.1 h.0)

pub has_iff : (t : String) (texts : List String) → (has t texts ≡ true) ↔ Among t texts
unfolding has
has_iff t [] = never
has_iff t (s ∷ texts) = elim (String_discrete s t) [
  | yes same ↦ (λ e. inl same, λ m. ground (arith, same))
  | no n ↦ (
    λ e. inr ((has_iff t texts).0 (ground (arith, n, e))),
    λ m. elim m [
      | inl same ↦ elim (n same) [ ]
      | inr later ↦ ground (arith, n, (has_iff t texts).1 later)
    ],
  )
]

pub non_empty_iff : (t : String) → (non_empty t ≡ true) ↔ (t ≢ "")
unfolding non_empty
non_empty_iff String.[] = (λ e. ground (arith, e), λ n. elim (n refl) [ ])
non_empty_iff (String.◌∷◌ c s) = (λ e. λ empty. ground (arith, ap non_empty empty), λ n. refl)

pub is_text_of_iff :
    (texts : List String) (v : Option Json) → (is_text_of texts v ≡ true) ↔ IsOneOf texts v
unfolding is_text_of
is_text_of_iff texts none = never
is_text_of_iff texts (some null) = never
is_text_of_iff texts (some (bool b)) = never
is_text_of_iff texts (some (num n)) = never
is_text_of_iff texts (some (str t)) = has_iff t texts
is_text_of_iff texts (some (arr items)) = never
is_text_of_iff texts (some (obj fs)) = never

pub is_full_text_iff : (v : Option Json) → (is_full_text v ≡ true) ↔ IsFullText v
unfolding is_full_text
is_full_text_iff none = never
is_full_text_iff (some null) = never
is_full_text_iff (some (bool b)) = never
is_full_text_iff (some (num n)) = never
is_full_text_iff (some (str t)) = non_empty_iff t
is_full_text_iff (some (arr items)) = never
is_full_text_iff (some (obj fs)) = never

pub is_text_iff : (v : Option Json) → (is_text v ≡ true) ↔ IsText v
unfolding is_text
is_text_iff none = never
is_text_iff (some null) = never
is_text_iff (some (bool b)) = never
is_text_iff (some (num n)) = never
is_text_iff (some (str t)) = always
is_text_iff (some (arr items)) = never
is_text_iff (some (obj fs)) = never

pub optional_string_iff : (v : Option Json) → (optional_string v ≡ true) ↔ IsOptional IsText v
unfolding optional_string
optional_string_iff none = always
optional_string_iff (some null) = never
optional_string_iff (some (bool b)) = never
optional_string_iff (some (num n)) = never
optional_string_iff (some (str t)) = always
optional_string_iff (some (arr items)) = never
optional_string_iff (some (obj fs)) = never

pub leb_iff : (m n : ℕ) → (leb m n ≡ true) ↔ (m ≤ n)
leb_iff m n = (λ e. ground (arith, e), λ h. ground (arith, h))

pub optional_seq_iff : (v : Option Json) → (optional_seq v ≡ true) ↔ IsOptional IsSeq v
unfolding optional_seq
optional_seq_iff none = always
optional_seq_iff (some null) = never
optional_seq_iff (some (bool b)) = never
optional_seq_iff (some (num (natural n))) = leb_iff n 9007199254740991
optional_seq_iff (some (num (other t))) = never
optional_seq_iff (some (str t)) = never
optional_seq_iff (some (arr items)) = never
optional_seq_iff (some (obj fs)) = never

pub is_there_iff : (v : Option Json) → (is_there v ≡ true) ↔ IsThere v
unfolding is_there
is_there_iff none = never
is_there_iff (some v) = always

pub record_value_iff :
    {P : Fields → Type 0} (test : Option Fields → Bool) (v : Option Json)
    → (test none ≡ false)
    → ((fs : Fields) → (test (some fs) ≡ true) ↔ P fs)
    → (test (record_value v) ≡ true) ↔ IsObjectThat P v
unfolding record_value
record_value_iff test none e h = (λ t. ground (arith, e, t), λ n. elim n [ ])
record_value_iff test (some null) e h = (λ t. ground (arith, e, t), λ n. elim n [ ])
record_value_iff test (some (bool b)) e h = (λ t. ground (arith, e, t), λ n. elim n [ ])
record_value_iff test (some (num n)) e h = (λ t. ground (arith, e, t), λ n. elim n [ ])
record_value_iff test (some (str s)) e h = (λ t. ground (arith, e, t), λ n. elim n [ ])
record_value_iff test (some (arr items)) e h = (λ t. ground (arith, e, t), λ n. elim n [ ])
record_value_iff test (some (obj fs)) e h = h fs

-- A choice by two tests in turn, which never hold at once.
pub choice_iff :
    {P Q R S : Type 0} (p q r s : Bool)
    → (P → Q → ⊥)
    → (p ≡ true) ↔ P
    → (q ≡ true) ↔ Q
    → (r ≡ true) ↔ R
    → (s ≡ true) ↔ S
    → ((if p then r else if q then s else true) ≡ true) ↔ ((P × R) ⊎ ((Q × S) ⊎ ((¬ P) × (¬ Q))))
choice_iff true q r s apart hp hq hr hs = (
  λ e. inl (hp.0 refl, hr.0 e),
  λ h. elim h [
    | inl pr ↦ hr.1 pr.1
    | inr (inl qs) ↦ elim (apart (hp.0 refl) qs.0) [ ]
    | inr (inr ns) ↦ elim (ns.0 (hp.0 refl)) [ ]
  ],
)
choice_iff false true r s apart hp hq hr hs = (
  λ e. inr (inl (hq.0 refl, hs.0 e)),
  λ h. elim h [
    | inl pr ↦ elim (apart pr.0 (hq.0 refl)) [ ]
    | inr (inl qs) ↦ hs.1 qs.1
    | inr (inr ns) ↦ elim (ns.1 (hq.0 refl)) [ ]
  ],
)
choice_iff false false r s apart hp hq hr hs =
    (λ e. inr (inr (λ x. never.0 (hp.1 x), λ x. never.0 (hq.1 x))), λ h. refl)
