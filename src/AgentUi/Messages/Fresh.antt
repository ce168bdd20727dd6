-- ===== src/AgentUi/Messages/Fresh.antt =====
-- src/agent-ui/index.ts: the id of a new message is no id of an item of its turn.
use openma_common.Common.{
  ℕ, zero, suc, ◌+◌, ◌≤◌, ◌<◌, ◌≡◌, ◌≢◌, refl, sym, ap, ◌∙◌, true, false, inl, inr, List, [], ◌∷◌,
  ◌++◌, length, arith, if◌then◌else◌, Bool-cases,
}
use openma_common.Common.Units.{Units, codes, same, same-eq, drop, drop-append}
use openma_common.Common.Decimal.{decimal, decimal-injective}
use openma_common.AgentUi.{AgentUiTimelineItem}
use openma_common.AgentUi.Messages.{
  item_id, has_item, segment_id, free_segment, unique_message_item_id,
}

-- The items without the first one that has an id.
remove_item : Units → List AgentUiTimelineItem → List AgentUiTimelineItem
remove_item id [] = []
remove_item id (item ∷ items) =
    if same (item_id item) id then items else item ∷ remove_item id items

length-remove_item :
    (id : Units) (items : List AgentUiTimelineItem)
    → has_item id items ≡ true
    → suc (length (remove_item id items)) ≡ length items
unfolding has_item remove_item
length-remove_item id [] h = ground arith
length-remove_item id (item ∷ items) h = ground (arith, length-remove_item id items)

same_ne : (s t : Units) → s ≢ t → same s t ≡ false
same_ne s t n = elim (Bool-cases (same s t)) [ inl e ↦ absurd (n (same-eq s t e)) | inr e ↦ e ]

has-remove_item_ne :
    (id other : Units) (items : List AgentUiTimelineItem)
    → id ≢ other
    → has_item other (remove_item id items) ≡ has_item other items
unfolding has_item remove_item
has-remove_item_ne id other [] n = refl
has-remove_item_ne id other (item ∷ items) n = elim (Bool-cases (same (item_id item) id)) [
  | inl e ↦ rw (e, if◌then◌else◌) (rw (same-eq (item_id item) id e, same_ne id other n) refl)
  | inr e ↦ rw (e, if◌then◌else◌) (rw (has-remove_item_ne id other items n) refl)
]

-- Later segments of a source have other ids.
segment_ne : (source : Units) (m n : ℕ) → m < n → segment_id source m ≢ segment_id source n
unfolding segment_id
segment_ne source m n h e =
    let front = source ++ codes ":segment:" in
    let digits =
      sym (drop-append front (decimal m))
      ∙ ap (drop (length front)) e
      ∙ drop-append front (decimal n) in
    absurd (omega (arith, decimal-injective m n digits))

free_segment_ge :
    (fuel : ℕ) (source : Units) (items : List AgentUiTimelineItem) (segment : ℕ)
    → segment ≤ free_segment fuel source items segment
unfolding free_segment
free_segment_ge zero source items segment = omega arith
free_segment_ge (suc fuel) source items segment =
    ground (arith, free_segment_ge fuel source items (segment + 1))

-- The segments that follow one are tested alike without its item.
free_segment-remove :
    (fuel : ℕ) (source : Units) (items : List AgentUiTimelineItem) (m n : ℕ)
    → m < n
    → free_segment fuel source (remove_item (segment_id source m) items) n
      ≡ free_segment fuel source items n
unfolding free_segment
free_segment-remove zero source items m n h = refl
free_segment-remove (suc fuel) source items m n h =
    rw
      (
        has-remove_item_ne (segment_id source m) (segment_id source n) items
            (segment_ne source m n h),
        free_segment-remove fuel source items m (n + 1) (omega arith),
      )
      refl

free_segment_lem :
    (fuel : ℕ) (source : Units) (items : List AgentUiTimelineItem) (segment : ℕ)
    → length items ≤ fuel
    → has_item (segment_id source (free_segment fuel source items segment)) items ≡ false
unfolding free_segment
free_segment_lem zero source [] segment h = refl
free_segment_lem zero source (item ∷ items) segment h = absurd (omega arith)
free_segment_lem (suc fuel) source items segment h =
    elim (Bool-cases (has_item (segment_id source segment) items)) [
      | inl taken ↦
          let here = segment_id source segment in
          let found = free_segment fuel source items (segment + 1) in
          let kept =
            free_segment_lem fuel source (remove_item here items) (segment + 1)
              (omega (arith, length-remove_item here items taken)) in
          rw (taken, if◌then◌else◌)
            (sym (
                has-remove_item_ne here (segment_id source found) items (
                  segment_ne source segment found
                    (omega (arith, free_segment_ge fuel source items (segment + 1)))))
              ∙ ap (λ k. has_item (segment_id source k) (remove_item here items))
                  (sym (free_segment-remove fuel source items segment (segment + 1) (omega arith)))
              ∙ kept)
      | inr free ↦ rw (free, if◌then◌else◌) free
    ]

-- The search for the id of a new message ends at an id that no item of the turn has: with as many
-- rounds as the turn has items, the loop over the segments has stopped at a free one.
pub unique_message_item_id_fresh :
    (items : List AgentUiTimelineItem) (source : Units)
    → has_item (unique_message_item_id items source) items ≡ false
unfolding unique_message_item_id
unique_message_item_id_fresh items source = elim (Bool-cases (has_item source items)) [
  | inl taken ↦ rw taken (free_segment_lem (length items) source items 2 (omega arith))
  | inr free ↦ rw free free
]
