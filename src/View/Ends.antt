-- ===== src/View/Ends.antt =====
-- The loops of src/DeltaViewer.cpp end in the rounds that the model gives them, for any bytes in place of the delta.
use roll.Prelude.{◌++◌, ℕ, zero, suc, ◌+◌, ◌<◌, ◌≡◌, subst, Bool, true, false, if◌then◌else◌, arith}
use roll.Format.{EntryType, original_chunk, added_chunk, modified_chunk}
use roll.Io.{Bytes, ByteInput}
use roll.Io.Action.{Result, ok, err, Action, ◌>>=◌, pure, bind-cases}
use roll.Codec.Reader.{
  ReadError, DeltaEntryHeader, DiffOpcode, Item, entry, trailer, end_of_stream, next_item,
  read_header, read_entry_header, read_payload, read_trailer, finish, at_diff_opcode,
  read_diff_opcode, finish_diff,
}
use roll.Codec.Reader.Progress.{IsForward, Shrinks}
use roll.Codec.Reader.Forward.{
  read_entry_header-Progress, read_payload-Shrinks, at_diff_opcode-left, next_item-left,
  read_diff_opcode-Progress, read_header-Shrinks, read_trailer-Shrinks, finish-Shrinks,
}
use roll.Error.{DeltaError}
use roll.Apply.Patch.{reading, lift}
use roll.Apply.Patch.Ends.{Fine, CalmAt, bind-Calm, reading-Calm, reading-takes}
use roll.View.{
  Console, Viewing, View, viewed, print, opcode_lines, opcode_size, more_opcodes, added_lines,
  diff_lines, header_lines, version_line, total_lines, trailer_lines, newline, text, view_opcodes,
  parse_diff_data, view_body, view_entry, view_trailer, view_items, view_stream, blake2b_hash_size,
}

module _ (console : Console) (I : ByteInput) (laws : IsForward I) where
  abbrev State : Type 0
  State = Viewing I.State

  abbrev left : State → ℕ
  left v = I.left v.delta

  abbrev Calm : State → {A : Type 0} → View console I A → Type 0
  Calm v m = CalmAt left v (m v).0 (m v).1

  done-Calm : {A : Type 0} (a : A) (v : State) → Calm v (pure a)
  done-Calm a v = record { fine = tt; shorter = omega arith }

  print-Calm : (bytes : Bytes) (v : State) → Calm v (print console I bytes)
  print-Calm bytes v = record { fine = tt; shorter = omega arith }

  viewed-Calm :
      {A : Type 0} (m : Action DeltaError I.State A) (v : State)
      → CalmAt I.left v.delta (m v.delta).0 (m v.delta).1
      → Calm v (viewed console I m)
  viewed-Calm m v c = record { fine = c.fine; shorter = c.shorter }

  -- A line is printed, and then the rest.
  after-Calm :
      {B : Type 0} (bytes : Bytes) (f : Unit {0} → View console I B) (v : State)
      → Calm (record v { printed = v.printed ++ bytes }) (f tt)
      → Calm v (print console I bytes >>= f)
  after-Calm bytes f v c = record { fine = c.fine; shorter = c.shorter }

  view_opcodes-Calm :
      (fuel size seen : ℕ) (v : State)
      → left v < fuel
      → Calm v (view_opcodes console I fuel size seen)
  unfolding view_opcodes
  view_opcodes-Calm zero size seen v enough = absurd (omega arith)
  view_opcodes-Calm (suc fuel) size seen v enough =
      let c =
        go (λ z v' h. view_opcodes-Calm fuel z (seen + 1) v' h) (at_diff_opcode I v.delta).0 in
      record {
        fine = c.fine;
        shorter = omega (arith, c.shorter, at_diff_opcode-left I laws v.delta);
      }
    where
      v₁ : State
      v₁ = record v { delta = (at_diff_opcode I v.delta).1 }

      next : DiffOpcode → View console I (ℕ × ℕ)
      next opcode = print console I (opcode_lines console seen opcode) >>= λ u.
          view_opcodes console I fuel (size + opcode_size opcode) (seen + 1)

      go :
          ((z : ℕ) (v' : State)
            → left v' < fuel
            → Calm v' (view_opcodes console I fuel z (seen + 1)))
          → (more : Bool)
          → Calm v₁ (
              if more
              then viewed console I (reading I (read_diff_opcode I)) >>= next
              else pure (size, seen))
      go again false = done-Calm (size, seen) v₁
      go again true =
          bind-Calm left (viewed console I (reading I (read_diff_opcode I))) next v₁
            (viewed-Calm (reading I (read_diff_opcode I)) v₁ (
              reading-Calm I laws (read_diff_opcode I) v₁.delta
                ((read_diff_opcode-Progress I laws).shrinks v₁.delta)))
            (λ opcode v₂ e.
              after-Calm (opcode_lines console seen opcode)
                (λ u. view_opcodes console I fuel (size + opcode_size opcode) (seen + 1)) v₂
                (again (size + opcode_size opcode)
                  (record v₂ { printed = v₂.printed ++ opcode_lines console seen opcode })
                  (omega (
                    arith,
                    enough,
                    at_diff_opcode-left I laws v.delta,
                    reading-takes I laws (read_diff_opcode I) (read_diff_opcode-Progress I laws)
                        v₁.delta (λ i. ((e i).0, (e i).1.delta)),
                  ))))

  -- A reading of the delta, and then the rest.
  reads-Calm :
      {A B : Type 0} (m : Action ReadError I.State A) (f : A → View console I B) (v : State)
      → Shrinks I laws m
      → ((a : A) (v' : State) → viewed console I (reading I m) v ≡ (ok a, v') → Calm v' (f a))
      → Calm v (viewed console I (reading I m) >>= f)
  reads-Calm m f v h k =
      bind-Calm left (viewed console I (reading I m)) f v
        (viewed-Calm (reading I m) v (reading-Calm I laws m v.delta (h v.delta))) k

  still : (n : ℕ) → Shrinks I laws (lift (finish_diff n))
  still n s = omega arith

  parse_diff_data-Calm : (v : State) → Calm v (parse_diff_data console I)
  unfolding parse_diff_data
  parse_diff_data-Calm v =
      let c =
        bind-Calm left (view_opcodes console I (suc (I.left v.delta)) 0 0) counted v
          (view_opcodes-Calm (suc (I.left v.delta)) 0 0 v (omega arith))
          (λ n v₁ e.
            after-Calm (more_opcodes console n.1) (λ u. checked n) v₁
              (reads-Calm (lift (finish_diff n.1)) (λ u. pure n)
                (record v₁ { printed = v₁.printed ++ more_opcodes console n.1 }) (still n.1)
                (λ u v₂ e'. done-Calm n v₂))) in
      record { fine = c.fine; shorter = c.shorter }
    where
      checked : ℕ × ℕ → View console I (ℕ × ℕ)
      checked (size, n) =
          viewed console I (reading I (lift (finish_diff n))) >>= λ u. pure (size, n)

      counted : ℕ × ℕ → View console I (ℕ × ℕ)
      counted (size, n) = print console I (more_opcodes console n) >>= λ u. checked (size, n)

  view_body-Calm :
      (type : EntryType) (header : DeltaEntryHeader) (v : State)
      → Calm v (view_body console I type header)
  unfolding view_body
  view_body-Calm original_chunk header v = done-Calm tt v
  view_body-Calm added_chunk header v =
      reads-Calm (read_payload I header.out_size) (λ raw. print console I (added_lines console raw))
        v (read_payload-Shrinks I laws header.out_size)
        (λ raw v' e. print-Calm (added_lines console raw) v')
  view_body-Calm modified_chunk header v =
      after-Calm (text "  Diff Operations:" ++ newline)
        (λ u. parse_diff_data console I >>= λ n. print console I (diff_lines console n.0 n.1)) v
        (bind-Calm left (parse_diff_data console I)
          (λ n. print console I (diff_lines console n.0 n.1))
          (record v { printed = v.printed ++ (text "  Diff Operations:" ++ newline) })
          (parse_diff_data-Calm
            (record v { printed = v.printed ++ (text "  Diff Operations:" ++ newline) }))
          (λ n v' e. print-Calm (diff_lines console n.0 n.1) v'))

  -- After the header of an entry.
  abbrev after_header : ℕ → DeltaEntryHeader → View console I (Unit {0})
  after_header chunk_num header = print console I (header_lines console chunk_num header) >>= λ u.
      (view_body console I header.type header >>= λ u. print console I newline)

  after_header-Calm :
      (chunk_num : ℕ) (header : DeltaEntryHeader) (v : State)
      → Calm v (after_header chunk_num header)
  after_header-Calm chunk_num header v =
      after-Calm (header_lines console chunk_num header)
        (λ u. view_body console I header.type header >>= λ u. print console I newline) v
        (bind-Calm left (view_body console I header.type header) (λ u. print console I newline)
          (record v { printed = v.printed ++ header_lines console chunk_num header })
          (view_body-Calm header.type header
            (record v { printed = v.printed ++ header_lines console chunk_num header }))
          (λ u v' e. print-Calm newline v'))

  -- An entry that is shown has taken a byte.
  abbrev Took : State → {A : Type 0} → Result DeltaError A → State → Type 0
  Took v (ok a) v' = left v' < left v
  Took v (err e) v' = Unit {0}

  took : {A : Type 0} (v v' : State) (x : Result DeltaError A) → left v' < left v → Took v x v'
  took v v' (ok a) h = h
  took v v' (err e) h = tt

  view_entry-Took :
      (chunk_num : ℕ) (v : State)
      → Took v (view_entry console I chunk_num v).0 (view_entry console I chunk_num v).1
  unfolding view_entry
  view_entry-Took chunk_num v =
      bind-cases (Took v) (viewed console I (reading I (read_entry_header I)))
        (after_header chunk_num) v (λ e v' eq. tt)
        (λ header v' eq.
          took v (after_header chunk_num header v').1 (after_header chunk_num header v').0 (
            omega (
              arith,
              (after_header-Calm chunk_num header v').shorter,
              reading-takes I laws (read_entry_header I) (read_entry_header-Progress I laws) v.delta
                  (λ i. ((eq i).0, (eq i).1.delta)),
            )))

  view_entry-Calm : (chunk_num : ℕ) (v : State) → Calm v (view_entry console I chunk_num)
  unfolding view_entry
  view_entry-Calm chunk_num v =
      reads-Calm (read_entry_header I) (after_header chunk_num) v
        ((read_entry_header-Progress I laws).shrinks)
        (λ header v' e. after_header-Calm chunk_num header v')

  view_trailer-Calm : (hash_size : ℕ) (v : State) → Calm v (view_trailer console I hash_size)
  unfolding view_trailer
  view_trailer-Calm hash_size v =
      reads-Calm (read_trailer I hash_size) (λ digest. print console I (trailer_lines digest)) v
        (read_trailer-Shrinks I laws hash_size)
        (λ digest v' e. print-Calm (trailer_lines digest) v')

  view_items-Calm :
      (fuel hash_size chunk_num : ℕ) (v : State)
      → left v < fuel
      → Calm v (view_items console I fuel hash_size chunk_num)
  unfolding view_items
  view_items-Calm zero hash_size chunk_num v enough = absurd (omega arith)
  view_items-Calm (suc fuel) hash_size chunk_num v enough =
      let c =
        go (λ v' h. view_items-Calm fuel hash_size (chunk_num + 1) v' h) (next_item I v.delta).0 in
      record { fine = c.fine; shorter = omega (arith, c.shorter, next_item-left I laws v.delta) }
    where
      v₀ : State
      v₀ = record v { delta = (next_item I v.delta).1 }

      next_step : Item → View console I (ℕ × Bool)
      next_step item = elim item [
        | end_of_stream ↦ pure (chunk_num, false)
        | trailer ↦ view_trailer console I hash_size >>= λ u. pure (chunk_num, true)
        | entry ↦ view_entry console I (chunk_num + 1) >>= λ u.
            view_items console I fuel hash_size (chunk_num + 1)
      ]

      go :
          ((v' : State)
            → left v' < fuel
            → Calm v' (view_items console I fuel hash_size (chunk_num + 1)))
          → (item : Item) → Calm v₀ (next_step item)
      go again end_of_stream = done-Calm (chunk_num, false) v₀
      go again trailer =
          bind-Calm left (view_trailer console I hash_size) (λ u. pure (chunk_num, true)) v₀
            (view_trailer-Calm hash_size v₀) (λ u v' e. done-Calm (chunk_num, true) v')
      go again entry =
          bind-Calm left (view_entry console I (chunk_num + 1))
            (λ u. view_items console I fuel hash_size (chunk_num + 1)) v₀
            (view_entry-Calm (chunk_num + 1) v₀)
            (λ u v' e. again v' (
              omega (
                arith,
                enough,
                next_item-left I laws v.delta,
                subst (λ z. Took v₀ z.0 z.1) e (view_entry-Took (chunk_num + 1) v₀),
              )))

  -- For a delta that is read forward, of any bytes: the viewer's loops over the entries and over
  -- the opcodes end within the rounds that the model gives them, so no result is the model's
  -- running out of fuel.
  pub view_stream-Fine : (v : State) → Fine (view_stream console I v).0
  unfolding view_stream
  view_stream-Fine v =
      (reads-Calm (read_header I)
        (λ u. print console I (version_line console) >>= λ u v. shown (suc (I.left v.delta)) v) v
        (read_header-Shrinks I laws)
        (λ u v₁ e.
          after-Calm (version_line console) (λ u v. shown (suc (I.left v.delta)) v) v₁
            (walked (record v₁ { printed = v₁.printed ++ version_line console })))).fine
    where
      last : ℕ → View console I ℕ
      last chunk_num = print console I (total_lines console chunk_num) >>= λ u. pure chunk_num

      ended : ℕ × Bool → View console I ℕ
      ended (chunk_num, saw) = viewed console I (reading I (finish I saw)) >>= λ u. last chunk_num

      shown : ℕ → View console I ℕ
      shown fuel = view_items console I fuel blake2b_hash_size 0 >>= ended

      walked : (v : State) → Calm v (λ v. shown (suc (I.left v.delta)) v)
      walked v =
          bind-Calm left (view_items console I (suc (I.left v.delta)) blake2b_hash_size 0) ended v
            (view_items-Calm (suc (I.left v.delta)) blake2b_hash_size 0 v (omega arith))
            (λ n v₁ e.
              reads-Calm (finish I n.1) (λ u. last n.0) v₁ (finish-Shrinks I laws n.1)
                (λ u v₂ e'.
                  after-Calm (total_lines console n.0) (λ u. pure n.0) v₂
                    (done-Calm n.0
                      (record v₂ { printed = v₂.printed ++ total_lines console n.0 }))))
