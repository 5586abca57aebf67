-- ===== src/Diff/Greedy.antt =====
-- `createGreedyDiff` of src/Delta.hpp.
pub mod Segments
pub mod Rebuilds
use roll.Prelude.{
  ℕ, zero, suc, ◌+◌, ◌%◌, Bool, true, false, ◌&&◌, not, List, [], ◌∷◌, ◌++◌, ◌==◌, ltb,
  if◌then◌else◌, length, take, drop, min,
}
use roll.Io.{Bytes}
use roll.Format.{u32_mod}
use roll.Codec.Ints.{push_u32_be}

-- `i` and `j` with what they have not reached of the old and the new data.
pub record Cursor : Type 0 where
  pub i : ℕ
  pub j : ℕ
  pub olds : Bytes
  pub news : Bytes

-- The loop over equal bytes.
unfoldable pub skip_equal : ℕ → ℕ → Bytes → Bytes → Cursor
skip_equal i j (a ∷ olds) (b ∷ news) =
    let rest = skip_equal (i + 1) (j + 1) olds news in
    if a == b then rest else record { i = i; j = j; olds = a ∷ olds; news = b ∷ news }
skip_equal i j olds news = record { i = i; j = j; olds = olds; news = news }

-- The loop over unequal bytes: at most 255 are collected.
unfoldable pub take_unequal : ℕ → ℕ → Bytes → Bytes → Bytes → Bytes × Cursor
take_unequal i j diff_bytes (a ∷ olds) (b ∷ news) =
    let rest = take_unequal (i + 1) (j + 1) (diff_bytes ++ b ∷ []) olds news in
    if not (a == b) && ltb (length diff_bytes) 255
    then rest
    else (diff_bytes, record { i = i; j = j; olds = a ∷ olds; news = b ∷ news })
take_unequal i j diff_bytes olds news =
    (diff_bytes, record { i = i; j = j; olds = olds; news = news })

unfoldable pub emit_replace : Bytes → ℕ → Bytes → Bytes
unfolding push_u32_be
emit_replace diff diff_start [] = diff
emit_replace diff diff_start (b ∷ diff_bytes) =
    (push_u32_be (diff ++ b'D' ∷ []) (diff_start % u32_mod) ++ length (b ∷ diff_bytes) % 256 ∷ [])
    ++ (b ∷ diff_bytes)

-- The main loop; each round takes a byte of both at least.
unfoldable pub greedy_loop : ℕ → Bytes → ℕ → ℕ → Bytes → Bytes → Bytes × Cursor
greedy_loop (suc fuel) diff i j (a ∷ olds) (b ∷ news) =
    let same = skip_equal i j (a ∷ olds) (b ∷ news) in
    let (diff_bytes, after) = take_unequal same.i same.j [] same.olds same.news in
    greedy_loop fuel (emit_replace diff same.i diff_bytes) after.i after.j after.olds after.news
greedy_loop fuel diff i j olds news = (diff, record { i = i; j = j; olds = olds; news = news })

-- The old bytes that are left are deleted.
unfoldable pub emit_rest_delete : Bytes → ℕ → Bytes → Bytes
unfolding push_u32_be
emit_rest_delete diff i [] = diff
emit_rest_delete diff i (a ∷ olds) =
    push_u32_be (push_u32_be (diff ++ b'X' ∷ []) (i % u32_mod)) (length (a ∷ olds) % u32_mod)

-- The new bytes that are left are inserted, 255 at a time.
unfoldable pub emit_rest_insert : ℕ → Bytes → ℕ → Bytes → Bytes
unfolding push_u32_be
emit_rest_insert fuel diff j [] = diff
emit_rest_insert zero diff j (b ∷ news) = diff
emit_rest_insert (suc fuel) diff j (b ∷ news) =
    let count = min 255 (length (b ∷ news)) in
    let head = push_u32_be (diff ++ b'I' ∷ []) (j % u32_mod) ++ count % 256 ∷ [] in
    emit_rest_insert fuel (head ++ take count (b ∷ news)) (j + count) (drop count (b ∷ news))

unfoldable pub create_greedy_diff : Bytes → Bytes → Bytes
create_greedy_diff old_data new_data =
    let (diff, end) = greedy_loop (length old_data) [] 0 0 old_data new_data in
    emit_rest_insert (length end.news) (emit_rest_delete diff end.i end.olds) end.j end.news
