-- ===== src/ComposerDrafts.antt =====
-- src/chat-ui/composer-drafts.ts: the store of unsent composer texts. The browser's storage is a
-- parameter whose state is passed on; each of its calls may throw. `encodeURIComponent` is a parameter
-- on texts that it does not throw at.
pub mod Refinement
mod Tests
use Prim.Native.String.{◌++◌ as concat}
use openma_common.Common.{
  String, Bool, true, false, Option, none, some, List, [], ◌∷◌, if◌then◌else◌, non_empty,
}
use openma_common.Common.Maps.{get, set, delete, has, add, remove}

-- A read gives none where it throws; a write and a removal say whether they returned.
pub record ComposerDraftStorage (S : Type 0) : Type 0 where
  pub get_item : S → String → Option (Option String)
  pub set_item : S → String → String → S × Bool
  pub remove_item : S → String → S × Bool

pub record ComposerDraftStore (S : Type 0) : Type 0 where
  pub drafts : List (String × String)
  pub unpersisted_scopes : List String
  pub stored : S

pub or_empty : Option String → String
or_empty none = ""
or_empty (some value) = value

-- The copy of a value that was read.
copy_read : String → Option String → List (String × String) → List (String × String)
copy_read scope none drafts = delete scope drafts
copy_read scope (some value) drafts = set scope value drafts

-- The scope after a storage call: persisted if it returned.
pub mark : String → Bool → List String → List String
mark scope true scopes = remove scope scopes
mark scope false scopes = add scope scopes

-- The options of `createComposerDraftStore`.
module _ {S : Type 0} (encode : String → String) (namespace : String)
    (storage : Option (ComposerDraftStorage S)) where
  pub create_composer_draft_store : S → ComposerDraftStore S
  create_composer_draft_store stored = record {
    drafts = [];
    unpersisted_scopes = [];
    stored = stored;
  }

  pub storage_key : String → String
  storage_key scope =
      concat "openma.composer-drafts." (concat namespace (concat ".v1." (encode scope)))

  pub clear : ComposerDraftStore S → String → ComposerDraftStore S
  unfolding storage_key mark
  clear s scope =
      let s' = record s { drafts = delete scope s.drafts } in
      elim storage [
        | none ↦ s'
        | some store ↦
            let (stored, returned) = store.remove_item s.stored (storage_key scope) in
            record s' {
              stored = stored;
              unpersisted_scopes = mark scope returned s.unpersisted_scopes;
            }
      ]

  pub write : ComposerDraftStore S → String → String → ComposerDraftStore S
  unfolding storage_key mark clear
  write s scope value =
      let s' = record s { drafts = set scope value s.drafts } in
      if non_empty value
      then elim storage [
        | none ↦ s'
        | some store ↦
            let (stored, returned) = store.set_item s.stored (storage_key scope) value in
            record s' {
              stored = stored;
              unpersisted_scopes = mark scope returned s.unpersisted_scopes;
            }
      ]
      else clear s scope

  pub read : ComposerDraftStore S → String → ComposerDraftStore S × String
  unfolding storage_key or_empty copy_read
  read s scope = elim storage [
    | none ↦ (s, or_empty (get scope s.drafts))
    | some store ↦
        if has scope s.unpersisted_scopes
        then (s, or_empty (get scope s.drafts))
        else elim (store.get_item s.stored (storage_key scope)) [
          | none ↦ (s, or_empty (get scope s.drafts))
          | some value ↦ (record s { drafts = copy_read scope value s.drafts }, or_empty value)
        ]
  ]
