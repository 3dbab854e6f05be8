-- ===== src/Monitoring/Objects.antt =====
-- The loops of QOpen62541Subscription over its monitored items, where no pointer dangles.
use qtopcua.Prelude.{
  ℕ, ◌≡◌, refl, Bool, true, false, ◌&&◌, ◌||◌, List, [], ◌∷◌, none, some, arith, ◌==◌, Bool-cases,
  inl, inr, length, Map, find, remove, find-nil, find-cons, find-remove, IsUnique, IsUnique2, find2,
  find2-missing, find2-nil, find2-cons, subst, inner, ◌++◌,
}
use qtopcua.Monitoring.Stack.{Signal, monitoring_enable_disable}
use qtopcua.Monitoring.Subscription.{MonitoredItem, objects, delete_all, disabled_signals}
use qtopcua.Monitoring.Notify.{all_objects}

-- Whether a signal tells that an attribute is no longer monitored.
abbrev pub is_announced : ℕ → ℕ → List Signal → Bool
is_announced handle attr [] = false
is_announced handle attr (monitoring_enable_disable h a false p ∷ signals) =
    (h == handle && a == attr) || is_announced handle attr signals
is_announced handle attr (signal ∷ signals) = is_announced handle attr signals

-- Whether there is an item for an attribute.
abbrev pub is_among : ℕ → ℕ → List MonitoredItem → Bool
is_among handle attr [] = false
is_among handle attr (item ∷ items) =
    (item.handle == handle && item.attr == attr) || is_among handle attr items

pub disabled-among :
    (status handle attr : ℕ) (items : List MonitoredItem)
    → is_announced handle attr (disabled_signals status items) ≡ is_among handle attr items
disabled-among status handle attr [] = refl
disabled-among status handle attr (item ∷ items) =
    ground (arith, disabled-among status handle attr items)

-- The objects of a hash: one for each entry, and all of them.
pub record Collected (entries : Map ℕ) (heap : Map MonitoredItem) : Type 0 where
  pub items : List MonitoredItem
  pub found : objects entries heap ≡ some items
  pub count : length items ≡ length entries
  pub complete :
      (key p : ℕ) (item : MonitoredItem)
      → find key entries ≡ some p
      → find p heap ≡ some item
      → is_among item.handle item.attr items ≡ true

Collected-next :
    (key p : ℕ) (item : MonitoredItem) (entries : Map ℕ) (heap : Map MonitoredItem)
    → find p heap ≡ some item
    → Collected entries heap
    → Collected ((key, p) ∷ entries) heap
unfolding objects
Collected-next key p item entries heap there c = record {
  items = item ∷ c.items;
  found = rw (there, objects) (rw (c.found, objects) refl);
  count = omega (arith, c.count);
  complete = λ k q x e f. elim (Bool-cases (key == k)) [
    | inl same ↦ ground (arith, there, find-cons k key p entries)
    | inr other ↦ ground (arith, c.complete k q x (ground (arith, find-cons k key p entries)) f)
  ];
}

pub Collected-live :
    (entries : Map ℕ) (heap : Map MonitoredItem)
    → IsUnique entries
    → ((key p : ℕ) → find key entries ≡ some p → (item : MonitoredItem) × (find p heap ≡ some item))
    → Collected entries heap
unfolding objects
Collected-live [] heap u live = record {
  items = [];
  found = refl;
  count = refl;
  complete = λ k q x e f. ground (arith, find-nil {V = ℕ} k);
}
Collected-live ((key, p) ∷ entries) heap u live =
    let first = live key p (ground (arith, find-cons key key p entries)) in
    Collected-next key p first.0 entries heap first.1 (
      Collected-live entries heap u.1
        (λ k q e. live k q (ground (arith, u.0, find-cons k key p entries))))

pub delete_all-none :
    (p : ℕ) (entries : Map ℕ) (heap : Map MonitoredItem)
    → find p heap ≡ none
    → find p (delete_all entries heap) ≡ none
unfolding delete_all
delete_all-none p [] heap e = e
delete_all-none p ((key, q) ∷ entries) heap e =
    delete_all-none p entries (remove q heap) (ground (arith, find-remove q p heap))

pub delete_all-entry :
    (key p : ℕ) (entries : Map ℕ) (heap : Map MonitoredItem)
    → find key entries ≡ some p
    → find p (delete_all entries heap) ≡ none
unfolding delete_all
delete_all-entry key p [] heap e = ground (arith, find-nil {V = ℕ} key)
delete_all-entry key p ((k, q) ∷ entries) heap e = elim (Bool-cases (k == key)) [
  | inl same ↦
      delete_all-none p entries (remove q heap)
        (ground (arith, find-cons key k q entries, find-remove q p heap))
  | inr other ↦
      delete_all-entry key p entries (remove q heap) (ground (arith, find-cons key k q entries))
]

is_among-append :
    (handle attr : ℕ) (xs ys : List MonitoredItem)
    → is_among handle attr (xs ++ ys) ≡ (is_among handle attr xs || is_among handle attr ys)
is_among-append handle attr [] ys = refl
is_among-append handle attr (x ∷ xs) ys = ground (arith, is_among-append handle attr xs ys)

-- The objects of a hash of hashes.
pub record AllCollected (nodes : Map (Map ℕ)) (heap : Map MonitoredItem) : Type 0 where
  pub items : List MonitoredItem
  pub found : all_objects nodes heap ≡ some items
  pub complete :
      (handle attr p : ℕ) (item : MonitoredItem)
      → find2 handle attr nodes ≡ some p
      → find p heap ≡ some item
      → is_among item.handle item.attr items ≡ true

module _ (h : ℕ) (i : Map ℕ) (nodes : Map (Map ℕ)) (u : IsUnique2 ((h, i) ∷ nodes)) where
  -- What is found behind the first entry is found with it.
  find2-later : (j a p : ℕ) → find2 j a nodes ≡ some p → find2 j a ((h, i) ∷ nodes) ≡ some p
  find2-later j a p e = ground (arith, u.0.0, find2-cons j a h i nodes, find2-missing h a nodes)

  IsUnique2-later : IsUnique2 nodes
  IsUnique2-later = (
    u.0.1,
    λ j. elim (Bool-cases (h == j)) [
      | inl same ↦ rw (later j same) tt
      | inr other ↦
          let behind : find j ((h, i) ∷ nodes) ≡ find j nodes =
            ground (arith, find-cons j h i nodes) in
          subst (λ o. IsUnique (inner o)) behind (u.1 j)
    ],
  )
    where
      later : (j : ℕ) → (h == j) ≡ true → find j nodes ≡ none
      later j same = ground (arith, u.0.0)

  IsUnique-first : IsUnique i
  IsUnique-first =
      let front : find h ((h, i) ∷ nodes) ≡ some i = ground (arith, find-cons h h i nodes) in
      subst (λ o. IsUnique (inner o)) front (u.1 h)

AllCollected-next :
    (h : ℕ) (i : Map ℕ) (nodes : Map (Map ℕ)) (heap : Map MonitoredItem)
    → Collected i heap
    → AllCollected nodes heap
    → AllCollected ((h, i) ∷ nodes) heap
unfolding all_objects
AllCollected-next h i nodes heap first others = record {
  items = first.items ++ others.items;
  found = rw (first.found, all_objects) (rw (others.found, all_objects) refl);
  complete = λ j a p x e f. elim (Bool-cases (h == j)) [
    | inl same ↦ ground (
      arith,
      is_among-append x.handle x.attr first.items others.items,
      first.complete a p x (ground (arith, find2-cons j a h i nodes)) f,
    )
    | inr other ↦ ground (
      arith,
      is_among-append x.handle x.attr first.items others.items,
      others.complete j a p x (ground (arith, find2-cons j a h i nodes)) f,
    )
  ];
}

pub AllCollected-live :
    (nodes : Map (Map ℕ)) (heap : Map MonitoredItem)
    → IsUnique2 nodes
    → ((handle attr p : ℕ)
        → find2 handle attr nodes ≡ some p
        → (item : MonitoredItem) × (find p heap ≡ some item))
    → AllCollected nodes heap
unfolding all_objects
AllCollected-live [] heap u live = record {
  items = [];
  found = refl;
  complete = λ j a p x e f. absurd (ground (arith, e, find2-nil {V = ℕ} j a));
}
AllCollected-live ((h, i) ∷ nodes) heap u live =
    AllCollected-next h i nodes heap
      (Collected-live i heap (IsUnique-first h i nodes u)
        (λ a p e. live h a p (ground (arith, e, find2-cons h a h i nodes))))
      (AllCollected-live nodes heap (IsUnique2-later h i nodes u)
        (λ j a p e. live j a p (find2-later h i nodes u j a p e)))
