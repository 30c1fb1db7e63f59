-- ===== src/Upvalue/Layout/RoundTrip.antt =====
-- An upvalue object is read back as it was written, and its fields stand past the header.
use vex_lua.Base.{
  ℕ, ◌+◌, ◌≤◌, ◌<◌, ◌≡◌, refl, ap, subst, ◌∙◌, sym, true, List, length, get_or, get_elem?, some,
  leb, ◌==◌, ==_iff, ok, >>=-eq-ok, guard, arith, ok_injective, ok_pair, guard_passed,
}
use vex_lua.Base.Bytes.{read_le_congr}
use vex_lua.Base.Slots.{Slot, write_slots, Fits, length-write_slots, read_slot, get_or-write_slots}
use vex_lua.Value.Header.{CommonHeader, read_common_header, write_common_header}
use vex_lua.Value.Header.Layout.{IsHeader, guard-true, read-write_common_header}
use vex_lua.Table.Layout.{too_small, wrong_kind, lift, with_mark_of}
use vex_lua.Table.Layout.RoundTrip.{header_kept, lift-ok}
use vex_lua.Upvalue.Object.{Node, UpvalueState, state_invalid, state_open, state_closed}
use vex_lua.Upvalue.Layout.{
  upvalue_size, kind_upvalue, state_byte, state_of, node_of, read_upvalue, node_slots,
  write_upvalue, FitsWords, fits_words,
}

pub fits_words-FitsWords : (node : Node) → fits_words node ≡ true → FitsWords node
fits_words-FitsWords node eq = ground (arith, eq)

node-Fits :
    (node : Node) (size : ℕ) → FitsWords node → upvalue_size ≤ size → Fits 16 size (node_slots node)
node-Fits node size f n =
    ((omega arith), (omega (arith, n)), small node.state, omega (arith, n, f.0, f.1, f.2, f.3, f.4))
  where
    small : (state : UpvalueState) → state_byte state < 256
    small state_invalid = omega arith
    small state_open = omega arith
    small state_closed = omega arith

state_back : (state : UpvalueState) → state_of (state_byte state) ≡ state
state_back state_invalid = refl
state_back state_open = refl
state_back state_closed = refl

node_ext :
    {a b : Node}
    → a.state ≡ b.state
    → a.slot_address ≡ b.slot_address
    → a.closed_value ≡ b.closed_value
    → a.next_open ≡ b.next_open
    → a.prev_open ≡ b.prev_open
    → a.thread_id ≡ b.thread_id
    → a ≡ b
node_ext p q r s t u = ground arith

node_back :
    (buf : List ℕ) (node : Node)
    → FitsWords node
    → upvalue_size ≤ length buf
    → node_of (write_slots buf (node_slots node)) ≡ node
node_back buf node f n =
    let at = λ (i : ℕ) (s : Slot) (eq : get_elem? (node_slots node) i ≡ some s).
      read_slot 16 buf (node_slots node) i s (node-Fits node (length buf) f n) eq in
    node_ext (ap state_of (at 0 _ refl) ∙ state_back node.state) (at 4 _ refl) (at 5 _ refl)
      (at 6 _ refl) (at 7 _ refl) (at 8 _ refl)

-- The fields depend on the bytes past the header.
pub node_of_congr :
    (a b : List ℕ)
    → ((j : ℕ) → 16 ≤ j → j < 64 → get_or a j 0 ≡ get_or b j 0)
    → node_of a ≡ node_of b
node_of_congr a b same =
    let at = λ (k off : ℕ) (lo : 16 ≤ off) (hi : off + k ≤ 64).
      read_le_congr k a b off λ j p q. same j (omega (arith, lo, p)) (omega (arith, hi, q)) in
    node_ext (ap state_of (at 1 0x10 (omega arith) (omega arith)))
      (at 8 0x18 (omega arith) (omega arith)) (at 8 0x20 (omega arith) (omega arith))
      (at 8 0x28 (omega arith) (omega arith)) (at 8 0x30 (omega arith) (omega arith))
      (at 8 0x38 (omega arith) (omega arith))

-- A buffer with a header of an upvalue reads as the header and the fields.
pub read_upvalue-parts :
    (buf : List ℕ) (common : CommonHeader)
    → upvalue_size ≤ length buf
    → read_common_header buf ≡ ok common
    → common.kind ≡ kind_upvalue
    → read_upvalue buf ≡ ok (common, node_of buf)
unfolding read_upvalue
read_upvalue-parts buf common n header kind =
    rw
      (
        guard-true (leb upvalue_size (length buf)) (too_small (length buf)) (ground (arith, n)),
        header,
        guard-true (common.kind == kind_upvalue) (wrong_kind common.kind) ((==_iff _ _).1 kind),
      )
      refl

pub read_upvalue-inv :
    (buf : List ℕ) (common : CommonHeader) (node : Node)
    → read_upvalue buf ≡ ok (common, node)
    → (read_common_header buf ≡ ok common) × (common.kind ≡ kind_upvalue) × (node_of buf ≡ node)
unfolding read_upvalue
read_upvalue-inv buf common node eq =
    let (u, enough, rest) =
      >>=-eq-ok (guard (leb upvalue_size (length buf)) (too_small (length buf))) _ eq in
    let (found, header, rest') = >>=-eq-ok (lift (read_common_header buf)) _ rest in
    let (u', kind, last) =
      >>=-eq-ok (guard (found.kind == kind_upvalue) (wrong_kind found.kind)) _ rest' in
    let (same, same') = ok_pair last in
    (
      lift-ok (read_common_header buf) header ∙ ap ok same,
      ap (λ x. x.kind) (sym same) ∙ (==_iff found.kind kind_upvalue).0 (guard_passed _ _ kind),
      same',
    )

-- What `WriteObject` leaves in the buffer of an upvalue object: its header with the mark that the
-- buffer held, the fields, and all bytes past the object.
pub record IsStored (buf out : List ℕ) (common : CommonHeader) (node : Node) : Type 0 where
  pub header : read_common_header out ≡ ok common
  pub fields : node_of out ≡ node
  pub same_length : length out ≡ length buf
  pub past : (j : ℕ) → 64 ≤ j → get_or out j 0 ≡ get_or buf j 0

pub write_upvalue-IsStored :
    (buf out : List ℕ) (common : CommonHeader) (node : Node)
    → FitsWords node
    → IsHeader (with_mark_of (read_common_header buf) common)
    → write_upvalue buf common node ≡ ok out
    → IsStored buf out (with_mark_of (read_common_header buf) common) node
unfolding write_upvalue
write_upvalue-IsStored buf out common node f v eq =
    let marked = with_mark_of (read_common_header buf) common in
    let (u, enough, rest) =
      >>=-eq-ok (guard (leb upvalue_size (length buf)) (too_small (length buf))) _ eq in
    let (headed, wrote, last) = >>=-eq-ok (lift (write_common_header buf marked)) _ rest in
    let (back, len, past) =
      read-write_common_header buf headed marked v
        (lift-ok (write_common_header buf marked) wrote) in
    let n : upvalue_size ≤ length headed = ground (arith, enough, len) in
    let made : write_slots headed (node_slots node) ≡ out = ok_injective last in
    let fits = node-Fits node (length headed) f n in
    subst (λ b. IsStored buf b marked node) made
      (record {
        header = header_kept headed (node_slots node) fits ∙ back;
        fields = node_back headed node f n;
        same_length = length-write_slots headed (node_slots node) ∙ len;
        past = λ j lo.
            get_or-write_slots headed (node_slots node) j (omega (arith, lo))
            ∙ past j (omega (arith, lo));
      })
