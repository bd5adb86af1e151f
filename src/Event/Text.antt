-- ===== src/Event/Text.antt =====
-- `Op.String` of jfsnotify/fsnotify.go, against a description that joins the names of the bits.
use fs_lib.Prelude.{
  Bool, List, [], ◌∷◌, ◌++◌, ◌≡◌, arith, ◌==◌, if◌then◌else◌, Bytes, codes, length, drop, replicate,
  ◌-◌,
}
use fs_lib.Event.{Event, Op, create, write, remove, rename, chmod, has}

-- if o.Has(op) { b.WriteString(text) }
write_if : Bool → Bytes → Bytes → Bytes
write_if held text b = if held then b ++ text else b

-- the builder's content after the five tests, and the end of the function
op_text : Bool → Bool → Bool → Bool → Bool → Bytes
unfolding write_if
op_text c d w n m =
    let b1 = write_if c (codes "|CREATE") [] in
    let b2 = write_if d (codes "|REMOVE") b1 in
    let b3 = write_if w (codes "|WRITE") b2 in
    let b4 = write_if n (codes "|RENAME") b3 in
    let b5 = write_if m (codes "|CHMOD") b4 in
    if length b5 == 0 then codes "[no events]" else drop 1 b5

-- func (o Op) String() string
unfoldable pub op_string : Op → Bytes
unfolding op_text
op_string o = op_text (has o create) (has o remove) (has o write) (has o rename) (has o chmod)

abbrev join_names : List Bytes → Bytes
join_names [] = []
join_names (n ∷ []) = n
join_names (n ∷ k ∷ ns) = n ++ codes "|" ++ join_names (k ∷ ns)

abbrev name_if : Bool → Bytes → List Bytes → List Bytes
name_if held name names = if held then name ∷ names else names

abbrev held_names : Bool → Bool → Bool → Bool → Bool → List Bytes
held_names c d w n m = name_if c (codes "CREATE") (
    name_if d (codes "REMOVE")
      (name_if w (codes "WRITE") (name_if n (codes "RENAME") (name_if m (codes "CHMOD") []))))

abbrev or_none : List Bytes → Bytes
or_none [] = codes "[no events]"
or_none (n ∷ ns) = join_names (n ∷ ns)

op_text-names : (c d w n m : Bool) → op_text c d w n m ≡ or_none (held_names c d w n m)
unfolding op_text drop
op_text-names c d w n m = ground arith

abbrev pub names_of : Op → List Bytes
names_of o = held_names (has o create) (has o remove) (has o write) (has o rename) (has o chmod)

-- The text of every mask is the names of its set bits, in the order CREATE, REMOVE, WRITE, RENAME,
-- CHMOD, joined by bars, or the text for no events where none of the five is set.
pub op_string-names : (o : Op) → op_string o ≡ or_none (names_of o)
unfolding op_string
op_string-names o =
    op_text-names (has o create) (has o remove) (has o write) (has o rename) (has o chmod)

-- Event.String, over the quoting of %q: the text of the mask, padded to 13 bytes, and the name
unfoldable pub event_string : (Bytes → Bytes) → Event → Bytes
unfolding op_string
event_string quote e =
    let op = op_string e.op in op ++ replicate (13 - length op) b' ' ++ b' ' ∷ quote e.name
