-- ===== src/AgentUi/Messages/Merging.antt =====
-- src/agent-ui/index.ts: what the merge of streamed texts keeps.
use mathlib.Core.List.{append-nil, append_assoc}
use openma_common.Common.{
  ℕ, zero, suc, ◌+◌, ◌-◌, ◌≡◌, refl, sym, ap, ◌∙◌, true, inl, inr, [], ◌∷◌, ◌++◌, length,
  length-append, arith, ltb, leb, Bool-cases, Bool, false, ◌&&◌, min, ◌≤◌,
}
use openma_common.Common.Units.{
  Units, take, drop, starts_with, ends_with, same, same-eq, starts_with-eq, ends_with-eq, take-drop,
  length-drop,
}
use openma_common.AgentUi.Messages.{merge_agent_ui_streaming_text, overlap, min_stream_overlap}

-- A text that begins, and one that ends, with another.
abbrev pub Begins : Units → Units → Type 0
Begins text first = (rest : Units) × (text ≡ first ++ rest)

abbrev pub Ends : Units → Units → Type 0
Ends text last = (front : Units) × (text ≡ front ++ last)

overlap-Ends :
    (n : ℕ) (accumulated incoming : Units)
    → Ends accumulated (take (overlap n accumulated incoming) incoming)
unfolding overlap
overlap-Ends zero accumulated incoming = (accumulated, sym (append-nil accumulated))
overlap-Ends (suc n) accumulated incoming = elim (Bool-cases (ltb (suc n) min_stream_overlap)) [
  | inl small ↦ rw small (accumulated, sym (append-nil accumulated))
  | inr large ↦ rw large (elim (Bool-cases (ends_with accumulated (take (suc n) incoming))) [
    | inl found ↦ rw found (
      take (length accumulated - length (take (suc n) incoming)) accumulated,
      sym (ends_with-eq accumulated (take (suc n) incoming) found),
    )
    | inr next ↦ rw next (overlap-Ends n accumulated incoming)
  ])
]

-- The accumulated text with what an overlap of the incoming one leaves.
joined-Ends :
    (n : ℕ) (accumulated incoming : Units)
    → Ends (accumulated ++ drop (overlap n accumulated incoming) incoming) incoming
joined-Ends n accumulated incoming =
    let (front, e) = overlap-Ends n accumulated incoming in
    (
      front,
      ap (λ t. t ++ drop (overlap n accumulated incoming) incoming) e
          ∙ append_assoc front (take (overlap n accumulated incoming) incoming)
              (drop (overlap n accumulated incoming) incoming)
          ∙ ap (λ t. front ++ t) (take-drop (overlap n accumulated incoming) incoming),
    )

pub merge-Begins :
    (accumulated incoming : Units)
    → Begins (merge_agent_ui_streaming_text accumulated incoming) accumulated
unfolding merge_agent_ui_streaming_text
merge-Begins [] incoming = (incoming, refl)
merge-Begins (c ∷ accumulated) [] = ([], sym (append-nil (c ∷ accumulated)))
merge-Begins (c ∷ accumulated) (d ∷ incoming) =
    let a = c ∷ accumulated in
    let i = d ∷ incoming in
    elim (Bool-cases (same i a)) [
      | inl e ↦ rw e ([], sym (append-nil a))
      | inr n ↦ rw n (elim (Bool-cases (starts_with i a)) [
        | inl e ↦ rw e (drop (length a) i, sym (starts_with-eq i a e))
        | inr m ↦ rw m (elim (Bool-cases (leb min_stream_overlap (length i) && ends_with a i)) [
          | inl e ↦ rw e ([], sym (append-nil a))
          | inr o ↦ rw o (drop (overlap (min (length a) (length i)) a i) i, refl)
        ])
      ])
    ]

and_right : (a b : Bool) → (a && b) ≡ true → b ≡ true
and_right true b h = h
and_right false b h = cc

merge-Ends :
    (accumulated incoming : Units)
    → Ends (merge_agent_ui_streaming_text accumulated incoming) incoming
unfolding merge_agent_ui_streaming_text
merge-Ends [] incoming = ([], refl)
merge-Ends (c ∷ accumulated) [] = (c ∷ accumulated, sym (append-nil (c ∷ accumulated)))
merge-Ends (c ∷ accumulated) (d ∷ incoming) =
    let a = c ∷ accumulated in
    let i = d ∷ incoming in
    elim (Bool-cases (same i a)) [
      | inl e ↦ rw e ([], sym (same-eq i a e))
      | inr n ↦ rw n (elim (Bool-cases (starts_with i a)) [
        | inl e ↦ rw e ([], refl)
        | inr m ↦ rw m (elim (Bool-cases (leb min_stream_overlap (length i) && ends_with a i)) [
          | inl e ↦ rw e (
            take (length a - length i) a,
            sym (
                ends_with-eq a i (and_right (leb min_stream_overlap (length i)) (ends_with a i) e)),
          )
          | inr o ↦ rw o (joined-Ends (min (length a) (length i)) a i)
        ])
      ])
    ]

length-drop-le : (n : ℕ) (a i : Units) → length (a ++ drop n i) ≤ length a + length i
length-drop-le n a i = omega (arith, length-append a (drop n i), length-drop n i)

length-merge :
    (accumulated incoming : Units)
    → length (merge_agent_ui_streaming_text accumulated incoming)
      ≤ length accumulated + length incoming
unfolding merge_agent_ui_streaming_text
length-merge [] incoming = omega arith
length-merge (c ∷ accumulated) [] = omega arith
length-merge (c ∷ accumulated) (d ∷ incoming) =
    let a = c ∷ accumulated in
    let i = d ∷ incoming in
    ground (arith, length-drop-le (overlap (min (length a) (length i)) a i) a i)

-- The merge of a streamed text begins with the text that was accumulated, ends with the incoming
-- one, and is no longer than the two together.
pub merge_keeps :
    (accumulated incoming : Units)
    → Begins (merge_agent_ui_streaming_text accumulated incoming) accumulated
      × Ends (merge_agent_ui_streaming_text accumulated incoming) incoming
      × (length (merge_agent_ui_streaming_text accumulated incoming)
          ≤ length accumulated + length incoming)
merge_keeps accumulated incoming = (
  merge-Begins accumulated incoming,
  merge-Ends accumulated incoming,
  length-merge accumulated incoming,
)
