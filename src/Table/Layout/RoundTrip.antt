-- ===== src/Table/Layout/RoundTrip.antt =====
-- A table object and a hash entry are read back as they were written.
use vex_lua.Base.{
  ℕ, ◌+◌, ◌≤◌, ◌<◌, ◌≡◌, ◌^◌, refl, ok, err, List, length, arith, leb, true, some, Result,
  get_elem?, ap, subst,
}
use vex_lua.Base.Slots.{Slot, write_slots, Fits, length-write_slots, read_slot, read_below}
use vex_lua.Value.Header.{HeaderError, read_common_header}
use vex_lua.Value.Header.Layout.{IsHeader, guard-true}
use vex_lua.Table.Layout.{
  Object, Entry, lift, entry_size, entry_slots, read_entry, write_entry, sync_layout_flags,
  with_mark_of,
}

-- The fields fit their widths.
pub record IsEntry (e : Entry) : Type 0 where
  pub hash_fits : e.full_hash < 2 ^ 32
  pub class_fits : e.key_class < 2 ^ 8
  pub aux_fits : e.key_aux < 2 ^ 64
  pub key_fits : e.key < 2 ^ 64
  pub value_fits : e.value < 2 ^ 64

entry-Fits : (e : Entry) (size : ℕ) → IsEntry e → entry_size ≤ size → Fits 0 size (entry_slots e)
entry-Fits e size v n = omega arith

entry_ext :
    {a b : Entry}
    → a.full_hash ≡ b.full_hash
    → a.key_class ≡ b.key_class
    → a.key_aux ≡ b.key_aux
    → a.key ≡ b.key
    → a.value ≡ b.value
    → a ≡ b
entry_ext p q r s t = ground arith

-- A hash entry whose fields fit their widths, and which `WriteEntry` accepts, is read back as it
-- was written.
pub read-write_entry :
    (buf out : List ℕ) (e : Entry) → IsEntry e → write_entry buf e ≡ ok out → read_entry out ≡ ok e
unfolding write_entry read_entry
read-write_entry buf out e v h =
    let n : entry_size ≤ length buf = ground arith in
    let made : write_slots buf (entry_slots e) ≡ out = ground arith in
    let at = λ (i : ℕ) (s : Slot) (eq : get_elem? (entry_slots e) i ≡ some s).
      read_slot 0 buf (entry_slots e) i s (entry-Fits e (length buf) v n) eq in
    subst (λ b. read_entry b ≡ ok e) made
      (rw (guard-true _ _ (long_enough buf e n))
        (ap ok (entry_ext (at 0 _ refl) (at 1 _ refl) (at 4 _ refl) (at 5 _ refl) (at 6 _ refl))))
  where
    long_enough :
        (buf : List ℕ) (e : Entry)
        → entry_size ≤ length buf
        → leb entry_size (length (write_slots buf (entry_slots e))) ≡ true
    long_enough buf e n = rw (length-write_slots buf (entry_slots e)) (ground arith)

pub record IsObject (o : Object) : Type 0 where
  pub is_header : IsHeader o.common
  pub flags_fit : o.flags < 2 ^ 32
  pub shape_fits : o.shape_id < 2 ^ 32
  pub version_fits : o.table_version < 2 ^ 32
  pub metatable_fits : o.metatable < 2 ^ 64
  pub array_fits : o.array_data < 2 ^ 64
  pub hint_fits : o.array_len_hint < 2 ^ 32
  pub cap_fits : o.array_cap < 2 ^ 32
  pub ctrl_fits : o.ctrl_data < 2 ^ 64
  pub entries_fit : o.entries_data < 2 ^ 64
  pub count_fits : o.hash_count < 2 ^ 32
  pub capacity_fits : o.hash_capacity < 2 ^ 32
  pub growth_fits : o.growth_left < 2 ^ 32
  pub seed_fits : o.hash_seed < 2 ^ 32

-- Writes past the header leave it.
pub header_kept :
    (buf : List ℕ) (ss : List Slot)
    → Fits 16 (length buf) ss
    → read_common_header (write_slots buf ss) ≡ read_common_header buf
unfolding read_common_header
header_kept buf ss f =
    let kept = λ (m at : ℕ) (below : at + m ≤ 16). read_below m at 16 (length buf) buf ss f below in
    rw
      (
        length-write_slots buf ss,
        kept 2 0 (omega arith),
        kept 1 2 (omega arith),
        kept 1 3 (omega arith),
        kept 4 4 (omega arith),
        kept 4 8 (omega arith),
        kept 4 12 (omega arith),
      )
      refl

-- The object that `WriteObject` puts into the buffer.
abbrev pub as_written : List ℕ → Object → Object
as_written buf o = record (sync_layout_flags o) {
  common = with_mark_of (read_common_header buf) (sync_layout_flags o).common;
}

pub lift-ok : {A : Type 0} (r : Result HeaderError A) {a : A} → lift r ≡ ok a → r ≡ ok a
lift-ok (ok x) h = ground (arith, h)
lift-ok (err e) h = cc
