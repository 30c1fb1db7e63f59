-- ===== src/Heap/Controller.antt =====
-- internal/runtime/heap/gc_controller.go: the collector's phase, its queues and its trigger.
use vex_lua.Base.{
  ℕ, ◌+◌, ◌*◌, ◌^◌, ◌-◌, ◌%◌, Bool, true, false, not, ◌||◌, List, [], ◌∷◌, ◌++◌, ltb, leb, ◌==◌,
  if◌then◌else◌, Result, ok, ◌>>◌, guard,
}
use vex_lua.Heap.{
  GcController, GcPhase, HeapError, bad_white, default_page_size, gc_phase_pause, gc_phase_mark,
  gc_phase_atomic, gc_phase_finalize,
}
use vex_lua.Value.Header.{mark_white0, mark_white1}

unfoldable pub new_gc_controller : ℕ → GcController
new_gc_controller page_size =
    let four = page_size * 4 % 2 ^ 64 in
    let threshold = if four == 0 then default_page_size * 4 else four in
    record {
      phase = gc_phase_pause;
      current_white = mark_white0;
      threshold = threshold;
      next_trigger = threshold;
      step_budget = 1024;
      live_bytes = 0;
      gray = [];
      gray_again = [];
      weak = [];
      finalize = [];
      remembered = [];
    }

unfoldable pub reset_queues : GcController → GcController
reset_queues gc = record gc {
  gray = [];
  gray_again = [];
  weak = [];
  finalize = [];
  remembered = [];
}

abbrev pub is_pause : GcPhase → Bool
is_pause gc_phase_pause = true
is_pause other = false

abbrev pub is_mark : GcPhase → Bool
is_mark gc_phase_mark = true
is_mark other = false

abbrev pub is_atomic : GcPhase → Bool
is_atomic gc_phase_atomic = true
is_atomic other = false

abbrev pub is_finalize : GcPhase → Bool
is_finalize gc_phase_finalize = true
is_finalize other = false

unfoldable pub set_gc_phase : GcController → GcPhase → GcController
unfolding reset_queues
set_gc_phase gc phase =
    let g₁ = record gc { phase = phase } in
    let g₂ = if is_pause phase then reset_queues g₁ else g₁ in
    let g₃ = if not (is_mark phase) then record g₂ { remembered = [] } else g₂ in
    let g₄ = if not (is_atomic phase) then record g₃ { gray_again = [] } else g₃ in
    if not (is_finalize phase) then record g₄ { finalize = [] } else g₄

unfoldable pub rearm_threshold : GcController → GcController
rearm_threshold gc =
    if gc.threshold == 0
    then record gc { next_trigger = 0 }
    else (let trigger = (gc.live_bytes + gc.threshold) % 2 ^ 64 in
        record gc { next_trigger = if ltb trigger gc.live_bytes then 2 ^ 64 - 1 else trigger })

unfoldable pub set_gc_threshold : GcController → ℕ → GcController
unfolding rearm_threshold
set_gc_threshold gc threshold = rearm_threshold (record gc { threshold = threshold })

unfoldable pub set_gc_step_budget : GcController → ℕ → GcController
set_gc_step_budget gc budget = record gc { step_budget = budget }

unfoldable pub gc_target_reached : GcController → Bool
gc_target_reached gc = if gc.threshold == 0 then false else leb gc.next_trigger gc.live_bytes

unfoldable pub set_current_white : GcController → ℕ → Result HeapError GcController
set_current_white gc mark = do
  guard (mark == mark_white0 || mark == mark_white1) (bad_white mark)
  ok (record gc { current_white = mark })

unfoldable pub flip_current_white : GcController → GcController
flip_current_white gc = record gc {
  current_white = if gc.current_white == mark_white1 then mark_white0 else mark_white1;
}

unfoldable pub append_unique_ref : List ℕ → ℕ → List ℕ
append_unique_ref [] ref = ref ∷ []
append_unique_ref (existing ∷ queue) ref = elim (existing == ref) [
  | true ↦ existing ∷ queue
  | false ↦ existing ∷ append_unique_ref queue ref
]

unfoldable pub enqueue_gray : GcController → ℕ → GcController
enqueue_gray gc ref = if ref == 0 then gc else record gc { gray = gc.gray ++ ref ∷ [] }

unfoldable pub enqueue_weak : GcController → ℕ → GcController
unfolding append_unique_ref
enqueue_weak gc ref = if ref == 0 then gc else record gc { weak = append_unique_ref gc.weak ref }

unfoldable pub enqueue_finalize : GcController → ℕ → GcController
unfolding append_unique_ref
enqueue_finalize gc ref =
    if ref == 0 then gc else record gc { finalize = append_unique_ref gc.finalize ref }

unfoldable pub remember_weak_owner : GcController → ℕ → GcController
unfolding append_unique_ref
remember_weak_owner gc ref =
    if ref == 0 || is_pause gc.phase then gc else record gc { weak = append_unique_ref gc.weak ref }

-- `DrainGrayQueue`, `DrainGrayAgainQueue` and `DrainWeakQueue`: the queue is handed out and emptied.
unfoldable pub drain_gray_queue : GcController → List ℕ × GcController
drain_gray_queue gc = (gc.gray, record gc { gray = [] })

unfoldable pub drain_gray_again_queue : GcController → List ℕ × GcController
drain_gray_again_queue gc = (gc.gray_again, record gc { gray_again = [] })

unfoldable pub drain_weak_queue : GcController → List ℕ × GcController
drain_weak_queue gc = (gc.weak, record gc { weak = [] })

-- `allocSpan` and `reuseFreeSpan` add to the live bytes, `FreeSpan` takes from them.
unfoldable pub add_live : GcController → ℕ → GcController
add_live gc size = record gc { live_bytes = (gc.live_bytes + size) % 2 ^ 64 }

unfoldable pub sub_live : GcController → ℕ → GcController
sub_live gc size = record gc {
  live_bytes = if leb gc.live_bytes size then 0 else gc.live_bytes - size;
}
