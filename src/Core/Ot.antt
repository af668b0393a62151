-- ===== src/Core/Ot.antt =====
-- core/src/ot.cpp: how two concurrent operations are transformed against each other, and how an
-- operation is applied to a document.
pub mod Positions
pub mod Commute
pub mod Apply
pub mod Order
pub mod Wrapped
pub mod Converge
use collaborative_text_edito.Common.{
  ℕ, ◌-◌, ◌+◌, ◌^◌, Bytes, ◌++◌, ◌==◌, ltb, leb, if◌then◌else◌, u32, add32, sub32, length, take,
  drop, min, max, [],
}
use collaborative_text_edito.Core.Operation.{OpType, Operation, is_noop}

unfoldable pub transform_insert_insert : Operation → Operation → Operation × Operation
transform_insert_insert a b =
    if ltb a.position b.position
    then (a, record b { position = add32 b.position a.length })
    else if ltb b.position a.position
    then (record a { position = add32 a.position b.length }, b)
    else if ltb a.user_id b.user_id
    then (a, record b { position = add32 b.position a.length })
    else if ltb b.user_id a.user_id
    then (record a { position = add32 a.position b.length }, b)
    else (a, b)

unfoldable pub transform_insert_delete : Operation → Operation → Operation × Operation
transform_insert_delete ins del =
    if leb ins.position del.position
    then (ins, record del { position = add32 del.position ins.length })
    else if leb (add32 del.position del.length) ins.position
    then (record ins { position = sub32 ins.position del.length }, del)
    else (
      record ins { position = del.position; text = []; length = 0 },
      record del { position = del.position; length = add32 del.length ins.length },
    )

-- The signed difference `int32_t(end) - int32_t(start)`, with what is below 0 raised to 0. Where it
-- leaves the range of int32_t, the C++ is undefined; here it wraps, as the machine's subtraction does.
abbrev pub overlap_of : Operation → Operation → ℕ
overlap_of a b =
    let difference =
      sub32 (min (add32 a.position a.length) (add32 b.position b.length))
        (max a.position b.position) in
    if ltb difference (2 ^ 31) then difference else 0

unfoldable pub transform_delete_delete : Operation → Operation → Operation × Operation
transform_delete_delete a b =
    if overlap_of a b == 0
    then (if ltb a.position b.position
        then (a, record b { position = sub32 b.position a.length })
        else if ltb b.position a.position
        then (record a { position = sub32 a.position b.length }, b)
        else (a, b))
    else (
      record a {
        position = min a.position b.position;
        length = sub32 a.length (u32 (overlap_of a b));
      },
      record b {
        position = min a.position b.position;
        length = sub32 b.length (u32 (overlap_of a b));
      },
    )

abbrev pub swap : Operation × Operation → Operation × Operation
swap (x, y) = (y, x)

unfoldable pub transform : Operation → Operation → Operation × Operation
unfolding transform_insert_insert transform_insert_delete transform_delete_delete
transform a b = elim a.type [
  | OpType.insert ↦ elim b.type [
    | OpType.insert ↦ transform_insert_insert a b
    | OpType.delete ↦ transform_insert_delete a b
  ]
  | OpType.delete ↦ elim b.type [
    | OpType.insert ↦ swap (transform_insert_delete b a)
    | OpType.delete ↦ transform_delete_delete a b
  ]
]

-- `std::string::insert` and `std::string::erase`, at a position within the string.
pub insert_at : Bytes → ℕ → Bytes → Bytes
insert_at d pos text = take pos d ++ (text ++ drop pos d)

pub erase_at : Bytes → ℕ → ℕ → Bytes
erase_at d pos len = take pos d ++ drop (pos + len) d

unfoldable pub apply : Bytes → Operation → Bytes
unfolding insert_at erase_at
apply d op = if is_noop op then d else elim op.type [
  | OpType.insert ↦ insert_at d (min op.position (u32 (length d))) op.text
  | OpType.delete ↦
      let pos = min op.position (u32 (length d)) in
      erase_at d pos (min op.length (u32 (length d - pos)))
]
