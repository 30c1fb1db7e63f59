-- ===== src/Table/Store/Moved.antt =====
-- `rehash` moves every entry: what the old hash part finds, the new one finds.
use vex_lua.Base.{
  ℕ, zero, suc, ◌+◌, ◌<◌, ◌≡◌, refl, ap, sym, ◌∙◌, subst, Bool, true, false, ◌||◌, Option, none,
  some, if◌then◌else◌, ok, err, arith, inl, inr, ◌⊎◌, >>=-eq-ok, Bool-cases, ℕ_discrete,
  ok_injective,
}
use vex_lua.Table.Layout.{Entry, is_nil_value}
use vex_lua.Table.Keys.{ctrl_fingerprint}
use vex_lua.Table.Find.{Probe, Cells, matches, find_entry, duplicate_key}
use vex_lua.Table.Find.Search.{IsVacant, fingerprint-lt, ctrl_at, entry_at}
use vex_lua.Table.Find.Update.{write_cell, IsSized, ctrl_self, ctrl_other}
use vex_lua.Table.Find.Effect.{absent-IsVacant}
use vex_lua.Table.Find.View.{probe_of, IsLive, IsIndexed, find_entry_congr, find_entry-found}
use vex_lua.Table.Find.Write.{hit}
use vex_lua.Table.Find.Laws.{find_entry-write_cell_new}
use vex_lua.Table.Store.{Table, cells_of, find_in}
use vex_lua.Table.Store.Grow.{is_skipped, put_entry, move_entry, rehash_loop}
use vex_lua.Table.Store.Invariant.{HashGrown}
use vex_lua.Table.Store.Rehash.{round_lem}
use vex_lua.Table.Store.Hash.{find_in_regions}

abbrev pub entry_part : Option (ℕ × Entry) → Option Entry
entry_part (some (s, e)) = some e
entry_part none = none

-- The entry that a search finds.
abbrev pub lookup : Cells → Probe → Option Entry
lookup cells p = entry_part (hit (find_entry cells p))

-- A control byte is a fingerprint, or says that the slot is vacant.
abbrev pub HasControls : Cells → Type 0
HasControls cells =
    (j : ℕ) → j < cells.capacity → (ctrl_at cells j < 128) ⊎ IsVacant (ctrl_at cells j)

pub write-HasControls :
    (cells : Cells) (z c : ℕ) (e : Entry)
    → IsSized cells
    → z < cells.capacity
    → (c < 128) ⊎ IsVacant c
    → HasControls cells
    → HasControls (write_cell cells z c e)
write-HasControls cells z c e sized below good controls j inside = elim (ℕ_discrete z j) [
  | yes same ↦
      subst
        (λ i.
          (ctrl_at (write_cell cells z c e) i < 128)
          ⊎ IsVacant (ctrl_at (write_cell cells z c e) i))
        same (subst (λ b. (b < 128) ⊎ IsVacant b) (sym (ctrl_self cells z c e sized below)) good)
  | no ne ↦
      subst (λ b. (b < 128) ⊎ IsVacant b) (sym (ctrl_other cells z c e sized below j ne))
        (controls j inside)
]

-- A hash part that finds its entries, and whose control bytes say which slots have one.
abbrev pub IsOrdered : Cells → Type 0
IsOrdered cells = IsIndexed cells × HasControls cells

-- One entry more, and the entries that were found are still found.
abbrev Moved : Cells → Cells → Entry → Type 0
Moved a b e =
    IsOrdered b
    × (lookup b (probe_of e) ≡ some e)
    × ((x : Entry) → lookup a (probe_of x) ≡ some x → lookup b (probe_of x) ≡ some x)

apart :
    (cells : Cells) (e x : Entry) (slot : ℕ)
    → find_entry cells (probe_of e) ≡ ok (slot, none)
    → lookup cells (probe_of x) ≡ some x
    → matches e (probe_of x) ≡ false
apart cells e x slot absent there = elim (Bool-cases (matches e (probe_of x))) [
  | inr different ↦ different
  | inl same ↦
      (let gone =
          ap (λ r. entry_part (hit r))
            (sym (find_entry_congr cells e (probe_of x) same) ∙ absent) in
        absurd (contradiction (sym gone ∙ there)))
]
  where
    contradiction : ¬ (◌≡◌ {A = Option Entry} none (some x))
    contradiction h = cc

-- A key with another hash.
unfoldable other_probe : Entry → Probe
other_probe e = record { key = e.key; full_hash = e.full_hash + 1; key_class = e.key_class }

other_probe_lem : (e : Entry) → matches e (other_probe e) ≡ false
unfolding matches other_probe
other_probe_lem e = ground arith

put-Moved :
    (cells : Cells) (e : Entry) (slot : ℕ)
    → IsOrdered cells
    → matches e (probe_of e) ≡ true
    → find_entry cells (probe_of e) ≡ ok (slot, none)
    → Moved cells (write_cell cells slot (ctrl_fingerprint e.full_hash) e) e
put-Moved cells e slot v good absent =
    let law = λ (q : Probe) (different : matches e q ≡ false).
      find_entry-write_cell_new cells (probe_of e) q slot e v.0 absent good different in
    let (below, vacant) = absent-IsVacant cells (probe_of e) slot v.0.sized absent in
    let (indexed, found, others) = law (other_probe e) (other_probe_lem e) in
    (
      (
        indexed,
        write-HasControls cells slot (ctrl_fingerprint e.full_hash) e v.0.sized below
            (inl (fingerprint-lt e.full_hash)) v.1,
      ),
      ap (λ r. entry_part (hit r)) found,
      λ x there. ap entry_part (law (probe_of x) (apart cells e x slot absent there)).2 ∙ there,
    )

move-Moved :
    (base t t' : Table) (e : Entry)
    → HashGrown base t
    → IsOrdered (cells_of t)
    → matches e (probe_of e) ≡ true
    → move_entry t e ≡ ok t'
    → Moved (cells_of t) (cells_of t') e
unfolding move_entry
move-Moved base t t' e g v good eq =
    let ((slot, found), f, rest) = >>=-eq-ok (find_in t (probe_of e)) _ eq in
    go slot found (sym through ∙ f) rest
  where
    through : find_in t (probe_of e) ≡ find_entry (cells_of t) (probe_of e)
    through = find_in_regions t (probe_of e) (λ z. omega (arith, z, g.0.some_slot)) (g.1) (g.2)

    go :
        (slot : ℕ) (found : Option Entry)
        → find_entry (cells_of t) (probe_of e) ≡ ok (slot, found)
        → elim found [ some _ ↦ err (duplicate_key slot) | none ↦ ok (put_entry t slot e) ] ≡ ok t'
        → Moved (cells_of t) (cells_of t') e
    go slot (some x) f h = cc
    go slot none f h =
        subst (λ x. Moved (cells_of t) (cells_of x) e) (ok_injective h)
          (put-Moved (cells_of t) e slot v good f)

-- An old slot whose entry is moved.
abbrev pub IsKept : Cells → ℕ → Type 0
IsKept old j =
    (j < old.capacity) × (ctrl_at old j < 128) × (is_nil_value (entry_at old j).value ≡ false)

-- The entries of the old slots below `i` are found.
abbrev pub FoundBelow : Cells → Cells → ℕ → Type 0
FoundBelow old cells i =
    (j : ℕ)
    → j < i
    → IsKept old j
    → lookup cells (probe_of (entry_at old j)) ≡ some (entry_at old j)

module _ (base : Table) (old : Cells) (v : IsIndexed old) (controls : HasControls old) where
  self_match : (j : ℕ) → IsLive old j → matches (entry_at old j) (probe_of (entry_at old j)) ≡ true
  self_match j live =
      (find_entry-found old (probe_of (entry_at old j)) j (entry_at old j) v.sized.some_slot
        (v.indexed j live)).2

  not_skipped :
      (i : ℕ)
      → i < old.capacity
      → (is_skipped (ctrl_at old i) || is_nil_value (entry_at old i).value) ≡ false
      → IsLive old i
  not_skipped i below test = ground (arith, test, controls i below)

  skipped :
      (i : ℕ)
      → (is_skipped (ctrl_at old i) || is_nil_value (entry_at old i).value) ≡ true
      → ¬ (IsKept old i)
  skipped i test (below, live, full) = ground (arith, test, live, full)

  round_found :
      (i : ℕ) (t t' : Table) (b : Bool)
      → i < old.capacity
      → HashGrown base t
      → IsOrdered (cells_of t)
      → FoundBelow old (cells_of t) i
      → (is_skipped (ctrl_at old i) || is_nil_value (entry_at old i).value) ≡ b
      → (if b then ok t else move_entry t (entry_at old i)) ≡ ok t'
      → IsOrdered (cells_of t') × FoundBelow old (cells_of t') (i + 1)
  round_found i t t' true below g w found test eq =
      subst (λ x. IsOrdered (cells_of x) × FoundBelow old (cells_of x) (i + 1)) (ok_injective eq)
        (
          w,
          λ j low kept. elim (ℕ_discrete i j) [
            | yes same ↦ absurd (skipped i test (subst (IsKept old) (sym same) kept))
            | no ne ↦ found j (omega (arith, low, ne)) kept
          ],
        )
  round_found i t t' false below g w found test eq =
      let live = not_skipped i below test in
      let (indexed, here, others) =
        move-Moved base t t' (entry_at old i) g w (self_match i live) eq in
      (
        indexed,
        λ j low kept. elim (ℕ_discrete i j) [
          | yes same ↦
              subst (λ k. lookup (cells_of t') (probe_of (entry_at old k)) ≡ some (entry_at old k))
                same here
          | no ne ↦ others (entry_at old j) (found j (omega (arith, low, ne)) kept)
        ],
      )

  pub loop_found :
      (n i : ℕ) (t t' : Table)
      → i + n ≡ old.capacity
      → HashGrown base t
      → IsOrdered (cells_of t)
      → FoundBelow old (cells_of t) i
      → rehash_loop old.ctrl old.entries n i t ≡ ok t'
      → IsOrdered (cells_of t') × FoundBelow old (cells_of t') (old.capacity)
  unfolding rehash_loop
  loop_found zero i t t' whole g w found eq =
      subst (λ x. IsOrdered (cells_of x) × FoundBelow old (cells_of x) (old.capacity))
        (ok_injective {a = t} {b = t'} eq)
        (w, λ j low kept. found j (omega (arith, low, whole)) kept)
  loop_found (suc n) i t t' whole g w found eq =
      let entry = entry_at old i in
      let skip = is_skipped (ctrl_at old i) || is_nil_value entry.value in
      let (t₁, moved, rest) = >>=-eq-ok (if skip then ok t else move_entry t entry) _ eq in
      let (indexed, more) = round_found i t t₁ skip (omega (arith, whole)) g w found refl moved in
      loop_found n (i + 1) t₁ t' (omega (arith, whole)) (round_lem base t t₁ entry skip g moved)
        indexed more rest
