-- ===== src/Table/Find/Total.antt =====
-- A search never fails while the hash part has a vacant slot: the probes reach all slots.
use vex_lua.Base.{
  ℕ, zero, suc, ◌+◌, ◌-◌, ◌%◌, ◌^◌, ◌<◌, ◌≤◌, ◌≡◌, refl, ap, sym, ◌∙◌, subst, Option, none, some,
  Result, ok, err, arith, ℕ_discrete,
}
use native.Mathlib.Nat.{mod-lt, add-mod-mod, add-mod_right, mod-eq_of_lt, pow-le-pow_right}
use vex_lua.Base.Bits.{bit_and_mask}
use vex_lua.Table.Layout.{Entry}
use vex_lua.Table.Find.{Error, Probe, Cells, probe_slot, probe_loop, find_entry}
use vex_lua.Table.Find.Search.{IsVacant, ctrl_at}

-- A loop that has met a deleted slot returns a result.
reuse_step :
    (cells : Cells) (p : Probe) (n i x : ℕ) (e : Error)
    → ¬ (probe_loop cells p n (i + 1) (some x) ≡ err e)
    → ¬ (probe_loop cells p (suc n) i (some x) ≡ err e)
unfolding probe_loop
reuse_step cells p n i x e ih h = ground arith

reuse-ok :
    (cells : Cells) (p : Probe) (n i x : ℕ) (e : Error)
    → ¬ (probe_loop cells p n i (some x) ≡ err e)
reuse-ok cells p zero i x e h = absurd (unfold probe_loop in cc)
reuse-ok cells p (suc n) i x e h = reuse_step cells p n i x e (reuse-ok cells p n (i + 1) x e) h

full_step :
    (cells : Cells) (p : Probe) (n i : ℕ) (e : Error)
    → probe_loop cells p (suc n) i none ≡ err e
    → (¬ (IsVacant (ctrl_at cells (probe_slot cells p i))))
      × (probe_loop cells p n (i + 1) none ≡ err e)
unfolding probe_loop
full_step cells p n i e h = ground (arith, reuse-ok cells p n (i + 1) (probe_slot cells p i) e)

-- A loop that fails has met no vacant slot.
full_lem :
    (cells : Cells) (p : Probe) (n i : ℕ) (e : Error)
    → probe_loop cells p n i none ≡ err e
    → (j : ℕ) → i ≤ j
    → j < i + n
    → ¬ (IsVacant (ctrl_at cells (probe_slot cells p j)))
full_lem cells p zero i e h j low high = omega arith
full_lem cells p (suc n) i e h j low high =
    let (this, others) = full_step cells p n i e h in
    elim (ℕ_discrete i j) [
      | yes same ↦ subst (λ y. ¬ (IsVacant (ctrl_at cells (probe_slot cells p y)))) same this
      | no ne ↦ full_lem cells p n (i + 1) e others j (omega (arith, ne)) (omega arith)
    ]

-- The probe that reaches a slot.
pub probe_to : ℕ → ℕ → ℕ → ℕ
probe_to h m t = (t + (m - h % m)) % m

probe_to_lem : (h m t : ℕ) → 0 < m → t < m → (h % m + probe_to h m t) % m ≡ t
unfolding probe_to
probe_to_lem h m t c below =
    let sum : h % m + (t + (m - h % m)) ≡ t + m = omega (arith, mod-lt h c) in
    add-mod-mod (h % m) (t + (m - h % m)) m
    ∙ ap (λ x. x % m) sum
    ∙ add-mod_right t m
    ∙ mod-eq_of_lt below

-- A hash part with a power of two of slots, at most 2 ^ 31, and one of them vacant.
pub record HasVacancy (cells : Cells) : Type 0 where
  pub log : ℕ
  pub log_bound : log < 32
  pub power : cells.capacity ≡ 2 ^ log
  pub slot : ℕ
  pub in_range : slot < cells.capacity
  pub is_vacant : IsVacant (ctrl_at cells slot)

probe_slot_power :
    (cells : Cells) (p : Probe) (k i : ℕ)
    → k < 32
    → cells.capacity ≡ 2 ^ k
    → i < 2 ^ k
    → probe_slot cells p i ≡ (p.full_hash % 2 ^ k + i) % 2 ^ k
unfolding probe_slot
probe_slot_power cells p k i bound power low =
    let small : 2 ^ k ≤ 2 ^ 31 = pow-le-pow_right (omega arith) {j = 31} (omega arith) in
    let h = mod-lt p.full_hash {m = 2 ^ k} (omega arith) in
    let sum : (p.full_hash % 2 ^ k + i) % 2 ^ 32 ≡ p.full_hash % 2 ^ k + i =
      mod-eq_of_lt (omega (arith, small, h, low)) in
    rw (power, bit_and_mask k p.full_hash, sum, bit_and_mask k (p.full_hash % 2 ^ k + i))

result_cases :
    (r : Result Error (ℕ × Option Entry))
    → ((e : Error) → ¬ (r ≡ err e))
    → (slot : ℕ) × (found : Option Entry) × (r ≡ ok (slot, found))
result_cases (ok (slot, found)) h = (slot, found, refl)
result_cases (err e) h = absurd (h e refl)

probe_slot-probe_to :
    (cells : Cells) (p : Probe) (v : HasVacancy cells)
    → probe_slot cells p (probe_to p.full_hash (2 ^ v.log) v.slot) ≡ v.slot
probe_slot-probe_to cells p v =
    let positive : 0 < 2 ^ v.log = omega (arith, v.power, v.in_range) in
    let low : v.slot < 2 ^ v.log = omega (arith, v.power, v.in_range) in
    probe_slot_power cells p v.log (probe_to p.full_hash (2 ^ v.log) v.slot) v.log_bound v.power
      (unfold probe_to in mod-lt (v.slot + (2 ^ v.log - p.full_hash % 2 ^ v.log)) positive)
    ∙ probe_to_lem p.full_hash (2 ^ v.log) v.slot positive low

-- A search of a hash part with a power of two of slots, at most 2 ^ 31, and a vacant one among
-- them returns a slot, with the entry there or without: the probes reach every slot.
pub find_entry-Result :
    (cells : Cells) (p : Probe)
    → HasVacancy cells
    → (slot : ℕ) × (found : Option Entry) × (find_entry cells p ≡ ok (slot, found))
unfolding find_entry
find_entry-Result cells p v =
    let positive : 0 < 2 ^ v.log = omega (arith, v.power, v.in_range) in
    let j = probe_to p.full_hash (2 ^ v.log) v.slot in
    let reached : j < 2 ^ v.log =
      unfold probe_to in mod-lt (v.slot + (2 ^ v.log - p.full_hash % 2 ^ v.log)) positive in
    result_cases (probe_loop cells p cells.capacity 0 none) (λ e h.
      full_lem cells p cells.capacity 0 e h j (omega arith) (omega (arith, reached, v.power))
        (subst (λ y. IsVacant (ctrl_at cells y)) (sym (probe_slot-probe_to cells p v)) v.is_vacant))
