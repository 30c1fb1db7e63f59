-- ===== src/Heap/Queues.antt =====
-- The collector's queues and its marks of the current cycle.
use vex_lua.Base.{
  ℕ, ◌+◌, ◌-◌, ◌^◌, ◌≤◌, ◌<◌, ◌≡◌, ◌∙◌, sym, true, List, [], ◌∷◌, Among, Bool-cases, ==_iff, ◌⊎◌,
  inl, inr, ◌==◌, arith,
}
use vex_lua.Heap.{GcController}
use vex_lua.Heap.Controller.{append_unique_ref, rearm_threshold, gc_target_reached}

-- No reference stands twice in the queue.
abbrev pub IsUnique : List ℕ → Type 0
IsUnique [] = Unit {0}
IsUnique (x ∷ xs) = (Among xs x → ⊥) × IsUnique xs

Among-append_unique_ref :
    (queue : List ℕ) (ref x : ℕ) → Among (append_unique_ref queue ref) x → Among queue x ⊎ (x ≡ ref)
unfolding append_unique_ref
Among-append_unique_ref [] ref x (inl here) = inr (sym here)
Among-append_unique_ref [] ref x (inr none) = absurd none
Among-append_unique_ref (e ∷ queue) ref x found = elim (Bool-cases (e == ref)) [
  | inl same ↦ inl (rw (append_unique_ref, same) at found)
  | inr other ↦ elim (rw (append_unique_ref, other) at found) [
    | inl here ↦ inl (inl here)
    | inr later ↦ elim (Among-append_unique_ref queue ref x later) [
      | inl old ↦ inl (inr old)
      | inr new ↦ inr new
    ]
  ]
]

append_unique_ref-Among :
    (queue : List ℕ) (ref x : ℕ) → Among queue x ⊎ (x ≡ ref) → Among (append_unique_ref queue ref) x
unfolding append_unique_ref
append_unique_ref-Among [] ref x (inl none) = absurd none
append_unique_ref-Among [] ref x (inr new) = inl (sym new)
append_unique_ref-Among (e ∷ queue) ref x h = elim (Bool-cases (e == ref)) [
  | inl same ↦
      rw (append_unique_ref, same)
        (elim h [ inl old ↦ old | inr new ↦ inl ((==_iff e ref).0 same ∙ sym new) ])
  | inr other ↦
      rw (append_unique_ref, other)
        (elim h [
          | inl (inl here) ↦ inl here
          | inl (inr later) ↦ inr (append_unique_ref-Among queue ref x (inl later))
          | inr new ↦ inr (append_unique_ref-Among queue ref x (inr new))
        ])
]

append_unique_ref-IsUnique :
    (queue : List ℕ) (ref : ℕ) → IsUnique queue → IsUnique (append_unique_ref queue ref)
unfolding append_unique_ref
append_unique_ref-IsUnique [] ref u = ((λ none. none), tt)
append_unique_ref-IsUnique (e ∷ queue) ref u = elim (Bool-cases (e == ref)) [
  | inl same ↦ rw (append_unique_ref, same) u
  | inr other ↦
      rw (append_unique_ref, other)
        (
          (λ again. elim (Among-append_unique_ref queue ref e again) [
            | inl old ↦ u.0 old
            | inr new ↦ ground (arith, other, new)
          ]),
          append_unique_ref-IsUnique queue ref u.1,
        )
]

-- `appendUniqueRef` adds the reference and no other, keeps those that were there, and keeps a queue
-- without duplicates so.
pub append_unique_ref_lem :
    (queue : List ℕ) (ref : ℕ)
    → ((x : ℕ)
        → (Among (append_unique_ref queue ref) x → Among queue x ⊎ (x ≡ ref))
          × (Among queue x ⊎ (x ≡ ref) → Among (append_unique_ref queue ref) x))
      × (IsUnique queue → IsUnique (append_unique_ref queue ref))
append_unique_ref_lem queue ref = (
  λ x. (Among-append_unique_ref queue ref x, append_unique_ref-Among queue ref x),
  append_unique_ref-IsUnique queue ref,
)

-- After `rearmThreshold` with live bytes and a threshold below 2 ^ 64, no collection is due before
-- `threshold` more bytes are live, or before the counter's last value, and one is due once they are;
-- with no threshold none is due. The trigger is not below the live bytes where there is a threshold,
-- and is 0 where there is none.
pub rearm_threshold_lem :
    (gc : GcController)
    → gc.live_bytes < 2 ^ 64
    → gc.threshold < 2 ^ 64
    → (n : ℕ) → n < 2 ^ 64
    → (gc_target_reached (record (rearm_threshold gc) { live_bytes = n }) ≡ true
        → (0 < gc.threshold) × ((gc.live_bytes + gc.threshold ≤ n) ⊎ (n ≡ 2 ^ 64 - 1)))
      × (0 < gc.threshold
          → gc.live_bytes + gc.threshold ≤ n
          → gc_target_reached (record (rearm_threshold gc) { live_bytes = n }) ≡ true)
      × (0 < gc.threshold → gc.live_bytes ≤ (rearm_threshold gc).next_trigger)
      × (gc.threshold ≡ 0 → (rearm_threshold gc).next_trigger ≡ 0)
unfolding rearm_threshold gc_target_reached
rearm_threshold_lem gc live threshold n small = (
  λ due. ground (arith, due),
  λ some_threshold more. ground arith,
  λ some_threshold. ground arith,
  λ none_set. ground (arith, none_set),
)
