-- ===== src/ComposerDrafts/Refinement.antt =====
-- src/chat-ui/composer-drafts.ts: the store behaves as one text per scope, whichever calls throw.
use text.Mathlib.TextLemmas.{append_cancel_left}
use openma_common.Common.{
  String, Bool, true, false, Option, none, some, List, [], ◌∷◌, ite, String_discrete, non_empty,
  ◌≡◌, refl, ◌≢◌, ◌⊎◌, inl, inr, arith, sym, ◌∙◌, ap, if_pos, if_neg, Bool-cases,
}
use openma_common.Common.Maps.{
  get, set, delete, has, get-set, get-delete_ne, get-delete_self, has-add, has-remove_ne,
  UniqueKeys, set-UniqueKeys, delete-UniqueKeys,
}
use openma_common.ComposerDrafts.{
  ComposerDraftStorage, ComposerDraftStore, create_composer_draft_store, storage_key, clear, write,
  read, or_empty, mark, copy_read,
}

-- What the store relies on in a storage: it holds a text or nothing for each key; a read throws or
-- gives that; a write or a removal that returns is done, and no other key changes.
pub record IsStorage {S : Type 0} (store : ComposerDraftStorage S) : Type 0 where
  pub held : S → String → Option String
  pub get_held :
      (s : S) (k : String) → (store.get_item s k ≡ none) ⊎ (store.get_item s k ≡ some (held s k))
  pub set_done :
      (s : S) (k v : String)
      → ((store.set_item s k v).1 ≡ false) ⊎ (held (store.set_item s k v).0 k ≡ some v)
  pub set_other : (s : S) (k v j : String) → k ≢ j → held (store.set_item s k v).0 j ≡ held s j
  pub remove_done :
      (s : S) (k : String)
      → ((store.remove_item s k).1 ≡ false) ⊎ (held (store.remove_item s k).0 k ≡ none)
  pub remove_other : (s : S) (k j : String) → k ≢ j → held (store.remove_item s k).0 j ≡ held s j

pub data Call : Type 0 where
  reads : String → Call
  writes : String → String → Call
  clears : String → Call

-- The text of each scope after the calls: the last one that was written.
abbrev pub text_after : (String → String) → List Call → String → String
text_after m [] k = m k
text_after m (reads j ∷ cs) k = text_after m cs k
text_after m (writes j v ∷ cs) k = text_after (λ i. ite (String_discrete j i) v (m i)) cs k
text_after m (clears j ∷ cs) k = text_after (λ i. ite (String_discrete j i) "" (m i)) cs k

get-delete :
    (j k : String) (drafts : List (String × String))
    → UniqueKeys drafts
    → get k (delete j drafts) ≡ ite (String_discrete j k) none (get k drafts)
get-delete j k drafts u = elim (String_discrete j k) [
  | yes same ↦ rw (if_pos (String_discrete j k) same) (rw (sym same) (get-delete_self j drafts u))
  | no other ↦ rw (if_neg (String_discrete j k) other) (get-delete_ne j k drafts other)
]

same_deleted :
    (j k : String) (drafts : List (String × String))
    → UniqueKeys drafts
    → get j drafts ≡ none
    → get k (delete j drafts) ≡ get k drafts
same_deleted j k drafts u e = elim (String_discrete j k) [
  | yes same ↦ rw (sym same) (get-delete_self j drafts u ∙ sym e)
  | no other ↦ get-delete_ne j k drafts other
]

same_set :
    (j k v : String) (drafts : List (String × String))
    → get j drafts ≡ some v
    → get k (set j v drafts) ≡ get k drafts
same_set j k v drafts e = elim (String_discrete j k) [
  | yes same ↦ rw (sym same) (ground (arith, get-set j j v drafts, e))
  | no other ↦ ground (arith, get-set j k v drafts, other)
]

unmarked_held :
    (scopes : List String) (j : String) (held draft : Option String)
    → has j scopes ≡ false
    → (has j scopes ≡ true) ⊎ (held ≡ draft)
    → held ≡ draft
unmarked_held scopes j held draft e h = ground (arith, e, h)

module _ {S : Type 0} (encode : String → String) (namespace : String)
    (store : ComposerDraftStorage S) where
  pub run : ComposerDraftStore S → List Call → ComposerDraftStore S
  run s [] = s
  run s (reads k ∷ cs) = run (read encode namespace (some store) s k).0 cs
  run s (writes k v ∷ cs) = run (write encode namespace (some store) s k v) cs
  run s (clears k ∷ cs) = run (clear encode namespace (some store) s k) cs

  abbrev key : String → String
  key k = storage_key encode namespace (some store) k

  -- The texts in memory are those of the calls, and a scope that is not marked has the same text in
  -- the storage.
  record Inv (laws : IsStorage store) (s : ComposerDraftStore S) (m : String → String)
      : Type 0 where
    unique : UniqueKeys s.drafts
    drafted : (k : String) → or_empty (get k s.drafts) ≡ m k
    kept :
        (k : String)
        → (has k s.unpersisted_scopes ≡ true) ⊎ (laws.held s.stored (key k) ≡ get k s.drafts)

  module _ (injective : (j k : String) → encode j ≡ encode k → j ≡ k) (laws : IsStorage store) where
    key_ne : (j k : String) → j ≢ k → key j ≢ key k
    unfolding storage_key
    key_ne j k n e = n (
        injective j k (
          append_cancel_left ".v1." (encode j) (encode k) (
            append_cancel_left namespace _ _ (append_cancel_left "openma.composer-drafts." _ _ e))))

    -- The texts in the storage after a call on the key of `j` that leaves `v` there if it returned.
    kept_after :
        (s : ComposerDraftStore S) (m : String → String) (stored : S) (returned : Bool) (j : String)
        (v : Option String) (drafts : List (String × String))
        → Inv laws s m
        → (returned ≡ false) ⊎ (laws.held stored (key j) ≡ v)
        → ((k : String) → j ≢ k → laws.held stored (key k) ≡ laws.held s.stored (key k))
        → ((k : String) → get k drafts ≡ ite (String_discrete j k) v (get k s.drafts))
        → (k : String)
        → (has k (mark j returned s.unpersisted_scopes) ≡ true)
          ⊎ (laws.held stored (key k) ≡ get k drafts)
    unfolding mark
    kept_after s m stored true j v drafts h done others d k = elim (String_discrete j k) [
      | yes same ↦ rw (sym same) (ground (arith, done, d j))
      | no other ↦
          ground
            (arith, h.kept k, others k other, d k, has-remove_ne j k s.unpersisted_scopes other)
    ]
    kept_after s m stored false j v drafts h done others d k = elim (String_discrete j k) [
      | yes same ↦ ground (arith, has-add j k s.unpersisted_scopes)
      | no other ↦ ground (arith, h.kept k, others k other, d k, has-add j k s.unpersisted_scopes)
    ]

    clear-Inv :
        (s : ComposerDraftStore S) (m : String → String) (j : String)
        → Inv laws s m
        → Inv laws
            (clear encode namespace (some store) s j)
            (λ i. ite (String_discrete j i) "" (m i))
    unfolding clear or_empty
    clear-Inv s m j h = record {
      unique = delete-UniqueKeys j s.drafts h.unique;
      drafted = λ k. ground (arith, get-delete j k s.drafts h.unique, h.drafted k);
      kept =
          kept_after s m (store.remove_item s.stored (key j)).0
            (store.remove_item s.stored (key j)).1 j none (delete j s.drafts) h
            (laws.remove_done s.stored (key j))
            (λ k n. laws.remove_other s.stored (key j) (key k) (key_ne j k n))
            (λ k. get-delete j k s.drafts h.unique);
    }

    write-Inv :
        (s : ComposerDraftStore S) (m : String → String) (j v : String)
        → Inv laws s m
        → Inv laws
            (write encode namespace (some store) s j v)
            (λ i. ite (String_discrete j i) v (m i))
    unfolding write or_empty non_empty
    write-Inv s m j String.[] h = clear-Inv s m j h
    write-Inv s m j (String.◌∷◌ c v) h = record {
      unique = set-UniqueKeys j (String.◌∷◌ c v) s.drafts h.unique;
      drafted = λ k. ground (arith, get-set j k (String.◌∷◌ c v) s.drafts, h.drafted k);
      kept =
          let w = String.◌∷◌ c v in
          kept_after s m (store.set_item s.stored (key j) w).0 (store.set_item s.stored (key j) w).1
            j (some w) (set j w s.drafts) h (laws.set_done s.stored (key j) w)
            (λ k n. laws.set_other s.stored (key j) w (key k) (key_ne j k n))
            (λ k. get-set j k w s.drafts);
    }

    copied-Inv :
        (s : ComposerDraftStore S) (m : String → String) (j : String) (value : Option String)
        → Inv laws s m
        → get j s.drafts ≡ value
        → Inv laws (record s { drafts = copy_read j value s.drafts }) m
    unfolding copy_read
    copied-Inv s m j none h e =
        let same = λ (k : String). same_deleted j k s.drafts h.unique e in
        record {
          unique = delete-UniqueKeys j s.drafts h.unique;
          drafted = λ k. ap or_empty (same k) ∙ h.drafted k;
          kept = λ k. rw (same k) (h.kept k);
        }
    copied-Inv s m j (some v) h e =
        let same = λ (k : String). same_set j k v s.drafts e in
        record {
          unique = set-UniqueKeys j v s.drafts h.unique;
          drafted = λ k. ap or_empty (same k) ∙ h.drafted k;
          kept = λ k. rw (same k) (h.kept k);
        }

    read-Inv :
        (s : ComposerDraftStore S) (m : String → String) (j : String)
        → Inv laws s m
        → Inv laws (read encode namespace (some store) s j).0 m
          × ((read encode namespace (some store) s j).1 ≡ m j)
    unfolding read
    read-Inv s m j h = elim (Bool-cases (has j s.unpersisted_scopes)) [
      | inl marked ↦ rw (marked, read) (h, h.drafted j)
      | inr unmarked ↦ elim (laws.get_held s.stored (key j)) [
        | inl throws ↦ rw (unmarked, read) (rw throws (h, h.drafted j))
        | inr given ↦
            let held = laws.held s.stored (key j) in
            let same =
              unmarked_held s.unpersisted_scopes j held (get j s.drafts) unmarked (h.kept j) in
            rw (unmarked, read)
              (rw given (copied-Inv s m j held h (sym same), ap or_empty same ∙ h.drafted j))
      ]
    ]

    run-Inv :
        (cs : List Call) (s : ComposerDraftStore S) (m : String → String)
        → Inv laws s m
        → Inv laws (run s cs) (text_after m cs)
    unfolding run
    run-Inv [] s m h = h
    run-Inv (reads j ∷ cs) s m h = run-Inv cs _ m (read-Inv s m j h).0
    run-Inv (writes j v ∷ cs) s m h = run-Inv cs _ _ (write-Inv s m j v h)
    run-Inv (clears j ∷ cs) s m h = run-Inv cs _ _ (clear-Inv s m j h)

    -- Over a storage that holds nothing at first, which of its calls ever throws, and with an
    -- injective encoding of scopes, a read after any reads, writes and clears gives the text last
    -- written to its scope, and the empty text where that was cleared or never written.
    pub read_exact :
        (stored : S) (cs : List Call) (k : String)
        → ((key : String) → laws.held stored key ≡ none)
        → (read encode namespace
            (some store)
            (run (create_composer_draft_store encode namespace (some store) stored) cs)
            k).1
          ≡ text_after (λ i. "") cs k
    unfolding create_composer_draft_store UniqueKeys get or_empty
    read_exact stored cs k empty =
        (read-Inv _ _ k (
          run-Inv cs _ (λ i. "")
            (record { unique = tt; drafted = λ i. refl; kept = λ i. inr (empty (key i)) }))).1
