-- ===== src/ComposerDrafts/Tests.antt =====
-- The store of drafts over a storage that refuses one of the texts.
use openma_common.Common.{
  String, Bool, true, false, Option, none, some, List, [], ◌∷◌, ite, String_discrete, ◌≡◌, refl,
  ◌≢◌, inr, if_pos, if_neg, ◌⊎◌, arith,
}
use openma_common.ComposerDrafts.{ComposerDraftStorage, create_composer_draft_store, read}
use openma_common.ComposerDrafts.Refinement.{
  IsStorage, Call, reads, writes, clears, run, text_after, read_exact,
}

abbrev put : (String → Option String) → String → Option String → String → Option String
put s k v j = ite (String_discrete k j) v (s j)

abbrev put_small : (String → Option String) → String → String → (String → Option String) × Bool
put_small s k v = ite (String_discrete v "big") (s, false) (put s k (some v), true)

abbrev small_texts : ComposerDraftStorage (String → Option String)
small_texts = record {
  get_item = λ s k. some (s k);
  set_item = put_small;
  remove_item = λ s k. (put s k none, true);
}

put_done :
    (s : String → Option String) (k v : String)
    → ((put_small s k v).1 ≡ false) ⊎ ((put_small s k v).0 k ≡ some v)
put_done s k v = ground arith

put_other : (s : String → Option String) (k v j : String) → k ≢ j → (put_small s k v).0 j ≡ s j
put_other s k v j n = ground (arith, n)

abbrev laws_of_small_texts : IsStorage small_texts
laws_of_small_texts = record {
  held = λ s k. s k;
  get_held = λ s k. inr refl;
  set_done = put_done;
  set_other = put_other;
  remove_done = λ s k. inr (rw (if_pos (String_discrete k k) refl) refl);
  remove_other = λ s k j n. rw (if_neg (String_discrete k j) n) refl;
}

abbrev edits : List Call
edits = writes "a" "small" ∷ writes "a" "big" ∷ writes "b" "x" ∷ reads "a" ∷ clears "b" ∷ []

read_exact_example :
    (read
      (λ s. s)
      "desktop"
      (some small_texts)
      (run
        (λ s. s)
        "desktop"
        small_texts
        (create_composer_draft_store (λ s. s) "desktop" (some small_texts) (λ k. none))
        edits)
      "a").1
    ≡ text_after (λ i. "") edits "a"
read_exact_example =
    read_exact (λ s. s) "desktop" small_texts (λ j k e. e) laws_of_small_texts (λ k. none) edits "a"
      (λ k. refl)

big_is_kept : text_after (λ i. "") edits "a" ≡ "big"
unfolding String_discrete
big_is_kept = refl
