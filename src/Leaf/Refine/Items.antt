-- ===== src/Leaf/Refine/Items.antt =====
-- A leaf of store/leaf.go as a list of items, the first one for a hash being the one that counts.
use gobeansdb.Base.{
  ℕ, suc, ◌≡◌, refl, ap, ◌∙◌, inl, inr, Bool-cases, Option-cases, Option, none, some, List, [], ◌∷◌,
  ◌++◌, length, if◌then◌else◌,
}
use gobeansdb.Leaf.{HTreeItem}
use gobeansdb.Leaf.Refine.Search.{same_key, index_of}

-- The item for `h`, the list with an item set for `h`, and the list without it.
unfoldable pub item_for : ℕ → ℕ → List HTreeItem → Option HTreeItem
item_for k h [] = none
item_for k h (e ∷ es) = if same_key k h e then some e else item_for k h es

unfoldable pub with_item : ℕ → ℕ → HTreeItem → List HTreeItem → List HTreeItem
with_item k h item [] = record item { key_hash = h } ∷ []
with_item k h item (e ∷ es) =
    if same_key k h e then record item { key_hash = h } ∷ es else e ∷ with_item k h item es

unfoldable pub without_item : ℕ → ℕ → List HTreeItem → List HTreeItem
without_item k h [] = []
without_item k h (e ∷ es) = if same_key k h e then es else e ∷ without_item k h es

some_value : {a b : ℕ} → some a ≡ some b → a ≡ b
some_value p = cc

-- A list split at its first item for `h`.
pub record Split (k h j : ℕ) (es : List HTreeItem) : Type 0 where
  pub front : List HTreeItem
  pub here : HTreeItem
  pub back : List HTreeItem
  pub whole : es ≡ front ++ (here ∷ back)
  pub place : length front ≡ j
  pub found : item_for k h es ≡ some here
  pub replaced :
      (item : HTreeItem) → with_item k h item es ≡ front ++ (record item { key_hash = h } ∷ back)
  pub removed : without_item k h es ≡ front ++ back

pub Split-at : (k h j : ℕ) (es : List HTreeItem) → index_of k h es ≡ some j → Split k h j es
unfolding index_of item_for with_item without_item
Split-at k h j [] e = absurd (cc)
Split-at k h j (x ∷ es) e = elim (Bool-cases (same_key k h x)) [
  | inl same ↦ record {
    front = [];
    here = x;
    back = es;
    whole = refl;
    place = some_value (rw same at e);
    found = rw same;
    replaced = λ item. rw same;
    removed = rw same;
  }
  | inr other ↦ elim (Option-cases (index_of k h es)) [
    | inl gone ↦ absurd (none_not_some (rw (other, gone) at e))
    | inr (i, there) ↦
        let later = Split-at k h i es there in
        record {
          front = x ∷ later.front;
          here = later.here;
          back = later.back;
          whole = ap (λ l. x ∷ l) later.whole;
          place = ap suc later.place ∙ some_value (rw (other, there) at e);
          found = rw other later.found;
          replaced = λ item. rw other (ap (λ l. x ∷ l) (later.replaced item));
          removed = rw other (ap (λ l. x ∷ l) later.removed);
        }
  ]
]
  where
    none_not_some : ◌≡◌ {A = Option ℕ} none (some j) → ⊥
    none_not_some p = cc

-- No item for `h`.
pub none_for :
    (k h : ℕ) (es : List HTreeItem) (item : HTreeItem)
    → index_of k h es ≡ none
    → (item_for k h es ≡ none)
      × (with_item k h item es ≡ es ++ (record item { key_hash = h } ∷ []))
      × (without_item k h es ≡ es)
unfolding index_of item_for with_item without_item
none_for k h [] item e = (refl, refl, refl)
none_for k h (x ∷ es) item e = elim (Bool-cases (same_key k h x)) [
  | inl same ↦ absurd (some_not_none 0 (rw same at e))
  | inr other ↦ elim (Option-cases (index_of k h es)) [
    | inr (i, there) ↦ absurd (some_not_none (suc i) (rw (other, there) at e))
    | inl gone ↦
        let (a, b, c) = none_for k h es item gone in
        (rw other a, rw other (ap (λ l. x ∷ l) b), rw other (ap (λ l. x ∷ l) c))
  ]
]
  where
    some_not_none : (n : ℕ) → ◌≡◌ {A = Option ℕ} (some n) none → ⊥
    some_not_none n p = cc
