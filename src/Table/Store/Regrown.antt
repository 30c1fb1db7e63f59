-- ===== src/Table/Store/Regrown.antt =====
-- `rehash` as a whole: the new hash part finds what the old one found.
use vex_lua.Base.{
  ℕ, zero, suc, ◌+◌, ◌*◌, ◌<◌, ◌≡◌, refl, ap, sym, ◌∙◌, subst, Bool, true, false, ◌||◌, List, [],
  ◌∷◌, ◌++◌, get_or, some, replicate, ◌==◌, if◌then◌else◌, Result, ok, err, arith, inl, inr,
  >>=-eq-ok, ok_injective,
}
use vex_lua.Table.Layout.{
  Object, Entry, entry_size, ctrl_empty, ctrl_sentinel, sync_layout_flags, is_nil_value,
}
use vex_lua.Table.Keys.{normalize_hash_capacity}
use vex_lua.Table.Find.{Error, no_hash_part, Probe, Cells, find_entry}
use vex_lua.Table.Find.Search.{ctrl_at}
use vex_lua.Table.Find.Update.{IsSized}
use vex_lua.Table.Find.View.{probe_of, IsIndexed, find_entry_congr, find_entry-found}
use vex_lua.Table.Find.Write.{hit}
use vex_lua.Table.Store.{HeapOps, Table, cells_of, hash_regions}
use vex_lua.Table.Store.Grow.{
  at_least, layout_hash_control, layout_hash_entry_array, with_hash, ensure_hash_capacity,
  rehash_loop, start_rehash, end_rehash, rehash,
}
use vex_lua.Table.Store.Invariant.{HeapLaws, SameLayout, ok-second, ensure_hash_lem}
use vex_lua.Table.Store.Rehash.{start_same, end_same, object_lem, at_least-ge}
use vex_lua.Table.Store.Moved.{entry_part, lookup, HasControls, IsOrdered, FoundBelow, loop_found}

get_or-replicate-append :
    (n i d : ℕ) (a : ℕ) (ys : List ℕ) → i < n → get_or (replicate n a ++ ys) i d ≡ a
get_or-replicate-append zero i d a ys low = absurd (omega arith)
get_or-replicate-append (suc n) zero d a ys low = refl
get_or-replicate-append (suc n) (suc i) d a ys low =
    get_or-replicate-append n i d a ys (omega arith)

-- New regions have no entry.
abbrev IsBare : Cells → Type 0
IsBare cells = (s : ℕ) → s < cells.capacity → ctrl_at cells s ≡ ctrl_empty

with_hash-IsBare :
    (t : Table) (target ctrl entries : ℕ) → IsBare (cells_of (with_hash t target ctrl entries))
unfolding with_hash sync_layout_flags
with_hash-IsBare t target ctrl entries s below =
    get_or-replicate-append target s 0 ctrl_empty (ctrl_sentinel ∷ []) below

pub bare-IsOrdered : (cells : Cells) → IsSized cells → IsBare cells → IsOrdered cells
bare-IsOrdered cells sized bare = (
  record { sized = sized; indexed = λ s live. absurd (omega (arith, live.1, bare s live.0)) },
  λ j below. inr (inl (bare j below)),
)

same_cells :
    (t : Table) (o : Object)
    → SameLayout o (t.object)
    → cells_of (record t { object = o }) ≡ cells_of t
same_cells t o same = ap (λ n. record (cells_of t) { capacity = n }) same.1.0

regions_lem : (t : Table) (old : Cells) → hash_regions t ≡ ok old → cells_of t ≡ old
unfolding hash_regions
regions_lem t old h =
    go (t.object.hash_capacity == 0 || (t.object.ctrl_data == 0 || t.object.entries_data == 0)) h
  where
    go :
        (b : Bool)
        → ◌≡◌ {A = Result Error Cells} (if b then err no_hash_part else ok (cells_of t)) (ok old)
        → cells_of t ≡ old
    go true h = cc
    go false h = ok_injective h

module _ {H : Type 0} (ops : HeapOps H) (laws : HeapLaws ops) (owner : ℕ) where
  pub ensure-IsBare :
      (h h' : H) (t t' : Table) (minimum : ℕ)
      → ensure_hash_capacity ops owner h t minimum ≡ ok (h', t')
      → IsBare (cells_of t')
  unfolding ensure_hash_capacity
  ensure-IsBare h h' t t' minimum eq =
      let target = at_least (normalize_hash_capacity minimum) t.object.hash_capacity in
      let ((h₁, ctrl), alloc, rest) =
        >>=-eq-ok (ops.alloc_payload h (target + 1) layout_hash_control owner) _ eq in
      let ((h₂, entries), alloc', rest') =
        >>=-eq-ok (ops.alloc_payload h₁ (target * entry_size) layout_hash_entry_array owner) _
          rest in
      subst (λ x. IsBare (cells_of x)) (ok-second rest') (with_hash-IsBare t target ctrl entries)

  pub rehash_found :
      (h h' : H) (t t' : Table) (minimum : ℕ)
      → IsIndexed (cells_of t)
      → HasControls (cells_of t)
      → rehash ops owner h t minimum ≡ ok (h', t')
      → IsOrdered (cells_of t') × FoundBelow (cells_of t) (cells_of t') (t.object.hash_capacity)
  unfolding rehash
  rehash_found h h' t t' minimum v controls eq =
      let (old, o, rest) = >>=-eq-ok (hash_regions t) _ eq in
      let same_old = regions_lem t old o in
      let ((h₁, t₁), e, rest') = >>=-eq-ok (ensure_hash_capacity ops owner h t minimum) _ rest in
      let target = at_least-ge (normalize_hash_capacity minimum) t.object.hash_capacity in
      let grown =
        ensure_hash_lem ops laws owner h h₁ t t₁ minimum (omega (arith, target, v.sized.some_slot))
          e in
      let o₁ = start_rehash t₁.object in
      let started = record t₁ { object = o₁ } in
      let (t₂, moved, last) =
        >>=-eq-ok (rehash_loop old.ctrl old.entries old.capacity 0 started) _ rest' in
      let bare =
        subst IsOrdered (sym (same_cells t₁ o₁ (start_same t₁.object)))
          (bare-IsOrdered (cells_of t₁) (grown.0) (ensure-IsBare h h₁ t t₁ minimum e)) in
      let moved' =
        subst (λ c. rehash_loop c.ctrl c.entries c.capacity 0 started ≡ ok t₂) (sym same_old)
          moved in
      let (indexed, found) =
        loop_found t (cells_of t) v controls t.object.hash_capacity 0 started t₂ (omega arith)
          (object_lem t t₁ o₁ grown (start_same t₁.object)) bare
          (λ j low kept. absurd (omega arith)) moved' in
      subst
        (λ x.
          IsOrdered (cells_of x) × FoundBelow (cells_of t) (cells_of x) (t.object.hash_capacity))
        (ok-second last)
        (subst (λ c. IsOrdered c × FoundBelow (cells_of t) c (t.object.hash_capacity))
          (sym (same_cells t₂ (end_rehash t.object t₂.object) (end_same t.object t₂.object)))
          (indexed, found))

  -- Over a heap that never gives out offset 0, rehashing an indexed hash part whose control bytes
  -- are fingerprints or say that a slot is vacant, if it succeeds, gives an indexed hash part
  -- that finds, for every key, the same entry that the old one found, unless that entry's value
  -- is nil.
  pub rehash-lookup :
      (h h' : H) (t t' : Table) (minimum : ℕ) (q : Probe) (s : ℕ) (e : Entry)
      → IsIndexed (cells_of t)
      → HasControls (cells_of t)
      → rehash ops owner h t minimum ≡ ok (h', t')
      → find_entry (cells_of t) q ≡ ok (s, some e)
      → is_nil_value e.value ≡ false
      → IsIndexed (cells_of t') × (lookup (cells_of t') q ≡ some e)
  rehash-lookup h h' t t' minimum q s e v controls eq there full =
      let (indexed, found) = rehash_found h h' t t' minimum v controls eq in
      let (live, at, good) = find_entry-found (cells_of t) q s e v.sized.some_slot there in
      let here = found s live.0 (live.0, live.1, ap (λ x. is_nil_value x.value) at ∙ full) in
      let here' = subst (λ x. lookup (cells_of t') (probe_of x) ≡ some x) at here in
      (
        indexed.0,
        ap (λ r. entry_part (hit r)) (sym (find_entry_congr (cells_of t') e q good)) ∙ here',
      )
