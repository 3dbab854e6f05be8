-- ===== src/Nodes/Fresh.antt =====
-- The loop of registerNode ends with a handle that is free.
use qtopcua.Prelude.{
  ==_iff, ◌⊎◌, ℕ, zero, suc, ◌+◌, ◌-◌, ◌%◌, ◌^◌, ◌≡◌, ◌≤◌, ◌<◌, refl, true, false, none, some,
  Option-cases, Bool-cases, inl, inr, length, ◌==◌, if◌then◌else◌, [], ◌∷◌, Map, find, insert,
  remove, find-remove, find-insert, arith,
}
use qtopcua.Nodes.Handles.{
  NodeImpl, ClientImpl, next_handle, free_handle, with_handle, register_node, unregister_node,
}

module _ {ℓ} {V : Type ℓ} where
  length-remove_le : (k : ℕ) (m : Map V) → length (remove k m) ≤ length m
  unfolding remove
  length-remove_le k [] = omega arith
  length-remove_le k ((j, v) ∷ m) = ground (arith, length-remove_le k m)

  length-remove :
      (k : ℕ) (v : V) (m : Map V) → find k m ≡ some v → suc (length (remove k m)) ≤ length m
  unfolding find remove
  length-remove k v [] e = cc
  length-remove k v ((j, w) ∷ m) e = ground (arith, length-remove k v m, length-remove_le k m)

free_handle-free :
    (fuel counter h : ℕ) (m : Map ℕ) → free_handle fuel counter m ≡ some h → find h m ≡ none
unfolding free_handle
free_handle-free zero counter h m e = cc
free_handle-free (suc fuel) counter h m e =
    ground (arith, free_handle-free fuel (next_handle counter) h m)

-- Each turn of the loop goes one step on, and does not come back to a handle before 2^64 of them.
module _ (counter k d : ℕ) (b : counter < 2 ^ 64) (e : k ≡ (counter + 2 ^ 64 - d) % 2 ^ 64) where
  further : d < 2 ^ 64 → k ≡ (next_handle counter + 2 ^ 64 - suc d) % 2 ^ 64
  further l = omega arith

  next_handle-ne : suc d < 2 ^ 64 → (k == next_handle counter) ≡ false
  next_handle-ne l = ground arith

free_handle-remove :
    (fuel counter k d : ℕ) (m : Map ℕ)
    → counter < 2 ^ 64
    → k ≡ (counter + 2 ^ 64 - d) % 2 ^ 64
    → d + fuel < 2 ^ 64
    → free_handle fuel counter (remove k m) ≡ free_handle fuel counter m
unfolding free_handle
free_handle-remove zero counter k d m b e l = refl
free_handle-remove (suc fuel) counter k d m b e l = ground (
  arith,
  next_handle-ne counter k d b e,
  find-remove k (next_handle counter) m,
  free_handle-remove fuel (next_handle counter) k (suc d) m (omega arith)
      (further counter k d b e (omega arith)) (omega arith),
)

-- With more turns than there are handles, the loop finds one.
free_handle-total :
    (fuel counter : ℕ) (m : Map ℕ)
    → length m < fuel
    → fuel < 2 ^ 64
    → counter < 2 ^ 64
    → (h : ℕ) × (free_handle fuel counter m ≡ some h)
unfolding free_handle
free_handle-total zero counter m l b c = absurd (omega arith)
free_handle-total (suc fuel) counter m l b c = elim (Option-cases (find (next_handle counter) m)) [
  | inl free ↦ (next_handle counter, ground (arith, free))
  | inr used ↦
      let fewer = length-remove (next_handle counter) used.0 m used.1 in
      let ih =
        free_handle-total fuel (next_handle counter) (remove (next_handle counter) m) (omega arith)
          (omega arith) (omega arith) in
      let same =
        free_handle-remove fuel (next_handle counter) (next_handle counter) 0 m (omega arith)
          (omega arith) (omega arith) in
      (ih.0, ground (arith, used.1, ih.1, same))
]

-- What is so after the object at `p` was registered: the handle was free and now leads to the
-- object, which knows it; every other handle leads where it led; and unregistering the object gives
-- every handle back.
pub record Registered (p : ℕ) (c : ClientImpl) (h : ℕ) (after : ClientImpl) : Type 0 where
  pub was_free : find h c.m_handles ≡ none
  pub bounded : after.m_handle_counter < 2 ^ 64
  pub leads : (g : ℕ) → find g after.m_handles ≡ (if h == g then some p else find g c.m_handles)
  pub known : (obj : NodeImpl) × (find p after.objects ≡ some obj) × (obj.m_handle ≡ h)
  pub undone :
      (before : ClientImpl) × (unregister_node p after ≡ some before)
      × ((g : ℕ) → find g before.m_handles ≡ find g c.m_handles)

module _ (p h : ℕ) (obj : NodeImpl) (c : ClientImpl) (free : find h c.m_handles ≡ none) where
  with_handle-known : find p (with_handle h p obj c).objects ≡ some (record obj { m_handle = h })
  with_handle-known = ground (arith, find-insert p p (record obj { m_handle = h }) c.objects)

  with_handle-undone :
      (before : ClientImpl) × (unregister_node p (with_handle h p obj c) ≡ some before)
      × ((g : ℕ) → find g before.m_handles ≡ find g c.m_handles)
  unfolding unregister_node
  with_handle-undone = (
    record (with_handle h p obj c) { m_handles = remove h (insert h p c.m_handles) },
    rw (with_handle-known, unregister_node) refl,
    λ g.
        ground
          (arith, find-remove h g (insert h p c.m_handles), find-insert h g p c.m_handles, free),
  )

  with_handle-Registered : h < 2 ^ 64 → Registered p c h (with_handle h p obj c)
  with_handle-Registered b = record {
    was_free = free;
    bounded = b;
    leads = λ g. find-insert h g p c.m_handles;
    known = (_, with_handle-known, refl);
    undone = with_handle-undone;
  }

free_handle-lt : (fuel counter h : ℕ) (m : Map ℕ) → free_handle fuel counter m ≡ some h → h < 2 ^ 64
unfolding free_handle
free_handle-lt zero counter h m e = cc
free_handle-lt (suc fuel) counter h m e =
    ground (arith, free_handle-lt fuel (next_handle counter) h m)

-- For an object that exists, a counter of 64 bits and fewer than 2^31 handles, registerNode ends:
-- either there are 2^31 - 1 handles and it returns false and leaves everything, or it returns true
-- and gives the object a handle that was free, which leads to it while every other handle leads
-- where it led, the counter keeping its 64 bits; unregisterNode then brings back what every handle
-- led to.
pub register_node-Registered :
    (p : ℕ) (obj : NodeImpl) (c : ClientImpl)
    → find p c.objects ≡ some obj
    → c.m_handle_counter < 2 ^ 64
    → length c.m_handles < 2 ^ 31
    → ((length c.m_handles ≡ 2 ^ 31 - 1) × (register_node p c ≡ some (false, c)))
      ⊎ ((h : ℕ) × (after : ClientImpl) × (register_node p c ≡ some (true, after))
          × Registered p c h after)
unfolding register_node
register_node-Registered p obj c e b l = elim (Bool-cases (length c.m_handles == 2 ^ 31 - 1)) [
  | inl full ↦ inl ((==_iff _ _).0 full, rw full refl)
  | inr room ↦
      let fuel = suc (length c.m_handles) in
      let found =
        free_handle-total fuel c.m_handle_counter c.m_handles (omega arith) (omega arith) b in
      inr (
        found.0,
        with_handle found.0 p obj c,
        rw room (rw (e, register_node) (rw (found.1, register_node) refl)),
        with_handle-Registered p found.0 obj c
            (free_handle-free fuel c.m_handle_counter found.0 c.m_handles found.1)
            (free_handle-lt fuel c.m_handle_counter found.0 c.m_handles found.1),
      )
]
