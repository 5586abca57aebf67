-- ===== src/View.antt =====
-- src/DeltaViewer.cpp: `view_delta` walks a delta and prints it. What goes to `std::cerr` is the error of the result.
pub mod Follows
pub mod Entries
pub mod Counts
pub mod Agrees
pub mod Ends
use Prim.Native.String.{String}
use Prim.Native.Char.{code}
use roll.Prelude.{
  ℕ, zero, suc, ◌+◌, ◌-◌, ◌/◌, ◌%◌, Bool, true, false, not, Option, none, some, [], ◌∷◌, ◌++◌, ◌==◌,
  ltb, if◌then◌else◌, length, take,
}
use roll.Format.{
  EntryType, original_chunk, added_chunk, modified_chunk, tag_of, delta_format_version,
}
use roll.Io.{Bytes, ByteInput}
use roll.Io.Action.{Result, ok, err, Action, continue, ◌>>=◌, ◌>>◌, pure, raise}
use roll.Codec.Reader.{
  ReadError, DeltaEntryHeader, DiffOpcode, Item, entry, trailer, end_of_stream, references_old,
  next_item, read_header, read_entry_header, read_payload, at_diff_opcode, read_diff_opcode,
  finish_diff, read_trailer, finish,
}
use roll.Error.{DeltaErrc, DeltaError, io_error, internal_error, out_of_fuel}
use roll.Apply.Patch.{reading, lift}

abbrev pub text : String → Bytes
text String.[] = []
text (String.◌∷◌ c s) = code c ∷ text s

abbrev pub newline : Bytes
newline = 10 ∷ []

-- What the standard library decides: how a stream prints a number, and which bytes `std::isprint` accepts.
pub record Console : Type 0 where
  pub decimal : ℕ → Bytes
  pub isprint : ℕ → Bool

abbrev pub entry_type_to_string : EntryType → Bytes
entry_type_to_string original_chunk = text "ORIGINAL"
entry_type_to_string added_chunk = text "ADDED"
entry_type_to_string modified_chunk = text "MODIFIED"

-- `setw(2)` of a byte in `std::hex`.
abbrev hex_digit : ℕ → ℕ
hex_digit d = if ltb d 10 then b'0' + d else b'a' + (d - 10)

abbrev hex_pair : ℕ → Bytes
hex_pair byte = hex_digit (byte / 16) ∷ hex_digit (byte % 16) ∷ []

abbrev hex_byte : ℕ → Bytes
hex_byte byte = text "0x" ++ hex_pair byte

unfoldable pub print_hex : Bytes → Bytes
print_hex [] = []
print_hex (byte ∷ shown) = hex_pair byte ++ print_hex shown

-- The bytes in hexadecimal behind the first one.
hex_bytes : Bytes → Bytes
hex_bytes [] = []
hex_bytes (byte ∷ shown) = text " " ++ (hex_byte byte ++ hex_bytes shown)

-- The first twelve bytes, in brackets.
hex_list : ℕ → Bytes → Bytes
hex_list max_bytes [] = []
hex_list max_bytes (byte ∷ shown) =
    text " ["
    ++ (hex_byte byte
        ++ (hex_bytes (take (max_bytes - 1) shown)
            ++ ((if ltb max_bytes (length (byte ∷ shown)) then text " ..." else []) ++ text "]")))

module _ (console : Console) where
  open console use {decimal, isprint}

  unfoldable pub printable_byte : ℕ → Bytes
  printable_byte byte =
      if byte == 10
      then text "\\n"
      else if byte == 13
      then text "\\r"
      else if byte == 9
      then text "\\t"
      else if isprint byte
      then byte ∷ []
      else text "."

  print_bytes : Bytes → Bytes
  print_bytes [] = []
  print_bytes (byte ∷ shown) = printable_byte byte ++ print_bytes shown

  unfoldable pub print_byte_preview : Bytes → ℕ → Bytes
  unfolding print_bytes
  print_byte_preview shown limit =
      print_bytes (take limit shown) ++ (if ltb limit (length shown) then text "..." else [])

  unfoldable pub print_inline_bytes : Bytes → Bytes
  unfolding hex_list hex_bytes
  print_inline_bytes shown =
      text "\"" ++ (print_byte_preview shown 12 ++ (text "\"" ++ hex_list 12 shown))

  -- The line of an opcode that is printed.
  unfoldable pub opcode_line : DiffOpcode → Bytes
  opcode_line o =
      if o.op == b'X'
      then text "        Delete "
        ++ (decimal o.delete_length ++ (text " byte(s) at position " ++ (decimal o.pos ++ newline)))
      else text "        "
        ++ ((if o.op == b'D' then text "Replace" else text "Insert")
            ++ (text " "
                ++ (decimal (length o.bytes)
                    ++ (text " byte(s) at position "
                        ++ (decimal o.pos
                            ++ (text ": " ++ (print_inline_bytes o.bytes ++ newline)))))))

  -- The first `maxPrintedOps` opcodes are printed.
  abbrev pub opcode_lines : ℕ → DiffOpcode → Bytes
  opcode_lines op_count o = if ltb op_count 10 then opcode_line o else []

  -- The others are counted.
  abbrev pub more_opcodes : ℕ → Bytes
  more_opcodes op_count =
      if ltb 10 op_count
      then text "        ... and "
        ++ (decimal (op_count - 10) ++ (text " more diff opcodes" ++ newline))
      else []

  -- What is printed of the data of an entry.
  abbrev pub added_lines : Bytes → Bytes
  added_lines raw_data =
      text "  Added Data (first 50 chars): \""
      ++ (print_byte_preview raw_data 50 ++ (text "\"" ++ newline))

  abbrev pub diff_lines : ℕ → ℕ → Bytes
  diff_lines diff_size op_count =
      text "  Diff Data Size: "
      ++ (decimal diff_size
          ++ (text " bytes"
              ++ (newline ++ (text "  Diff Opcode Count: " ++ (decimal op_count ++ newline)))))

  abbrev pub version_line : Bytes
  version_line = text "Format version: " ++ (decimal delta_format_version ++ (newline ++ newline))

  abbrev pub total_lines : ℕ → Bytes
  total_lines chunk_num =
      text "========================================"
      ++ (newline ++ (text "Total chunks processed: " ++ (decimal chunk_num ++ newline)))

  -- What is printed of an entry before its body.
  unfoldable pub header_lines : ℕ → DeltaEntryHeader → Bytes
  header_lines chunk_num header =
      text "Chunk #"
      ++ (decimal chunk_num
          ++ (text ":"
              ++ (newline
                  ++ (text "  Type: "
                      ++ (entry_type_to_string header.type
                          ++ (text " ("
                              ++ (decimal (tag_of header.type)
                                  ++ (text ")"
                                      ++ (newline
                                          ++ ((if references_old header.type
                                                then text "  Source: old chunk #"
                                                  ++ (decimal header.old_index ++ newline)
                                                else [])
                                              ++ ((if tag_of header.type == 0
                                                    then []
                                                    else text "  Output Size: "
                                                      ++ (decimal header.out_size
                                                          ++ (text " bytes" ++ newline)))
                                                  ++ (text "  Digest: "
                                                      ++ (print_hex header.digest
                                                          ++ newline)))))))))))))

abbrev pub trailer_lines : Bytes → Bytes
trailer_lines digest = text "Whole-file hash: " ++ (print_hex digest ++ newline)

-- What an opcode adds to the size of the diff data.
abbrev pub opcode_size : DiffOpcode → ℕ
opcode_size o = 1 + 4 + (if o.op == b'X' then 4 else 1 + length o.bytes)

-- What is printed of an open file before it is read.
abbrev pub banner : Bytes → Bytes
banner name =
    text "Delta File Viewer - Analyzing: "
    ++ (name
        ++ (newline ++ (text "========================================" ++ (newline ++ newline))))

-- `BLAKE2b::HASH_SIZE`
abbrev pub blake2b_hash_size : ℕ
blake2b_hash_size = 64

-- The delta, and what `std::cout` has received.
pub record Viewing (D : Type 0) : Type 0 where
  pub delta : D
  pub printed : Bytes

module _ (console : Console) (I : ByteInput) where
  open console use {decimal}

  abbrev pub View : Type 0 → Type 0
  View A = Action DeltaError (Viewing I.State) A

  abbrev pub viewed : {A : Type 0} → Action DeltaError I.State A → View A
  viewed m v = ((m v.delta).0, record v { delta = (m v.delta).1 })

  abbrev pub print : Bytes → View (Unit {0})
  print bytes v = (ok tt, record v { printed = v.printed ++ bytes })

  -- The loop of `parseDiffData`, with `diffSize` and `opCount`. Each round takes a byte at least.
  unfoldable pub view_opcodes : ℕ → ℕ → ℕ → View (ℕ × ℕ)
  view_opcodes zero diff_size op_count =
      raise (record { code = internal_error; message = out_of_fuel })
  view_opcodes (suc fuel) diff_size op_count = do
    more ← viewed (λ s. (ok (at_diff_opcode I s).0, (at_diff_opcode I s).1))
    let rest = do
      opcode ← viewed (reading I (read_diff_opcode I))
      print (opcode_lines console op_count opcode)
      view_opcodes fuel (diff_size + opcode_size opcode) (op_count + 1)
    if more then rest else pure (diff_size, op_count)

  unfoldable pub parse_diff_data : View (ℕ × ℕ)
  parse_diff_data v =
      (do
        (diff_size, op_count) ← view_opcodes (suc (I.left v.delta)) 0 0
        print (more_opcodes console op_count)
        viewed (reading I (lift (finish_diff op_count)))
        pure (diff_size, op_count))
        v

  unfoldable pub view_body : EntryType → DeltaEntryHeader → View (Unit {0})
  view_body original_chunk header = pure tt
  view_body added_chunk header = do
    raw_data ← viewed (reading I (read_payload I header.out_size))
    print (added_lines console raw_data)
  view_body modified_chunk header = do
    print (text "  Diff Operations:" ++ newline)
    (diff_size, op_count) ← parse_diff_data
    print (diff_lines console diff_size op_count)

  unfoldable pub view_entry : ℕ → View (Unit {0})
  view_entry chunk_num = do
    header ← viewed (reading I (read_entry_header I))
    print (header_lines console chunk_num header)
    view_body header.type header
    print newline

  unfoldable pub view_trailer : ℕ → View (Unit {0})
  view_trailer hash_size = do
    trailer_digest ← viewed (reading I (read_trailer I hash_size))
    print (trailer_lines trailer_digest)

  -- The loop; the result is `chunkNum` and `saw_trailer`.
  unfoldable pub view_items : ℕ → ℕ → ℕ → View (ℕ × Bool)
  view_items zero hash_size chunk_num =
      raise (record { code = internal_error; message = out_of_fuel })
  view_items (suc fuel) hash_size chunk_num = do
    item ← viewed (λ s. (ok (next_item I s).0, (next_item I s).1))
    let more = do view_entry (chunk_num + 1); view_items fuel hash_size (chunk_num + 1)
    elim item [
      | end_of_stream ↦ pure (chunk_num, false)
      | trailer ↦ do view_trailer hash_size; pure (chunk_num, true)
      | entry ↦ more
    ]

  -- From the open file on; the result is `chunkNum`. The reader is set to the size of the shipped hash.
  unfoldable pub view_stream : View ℕ
  view_stream = do
    viewed (reading I (read_header I))
    print (version_line console)
    fuel ← λ v. (ok (suc (I.left v.delta)), v)
    (chunk_num, saw_trailer) ← view_items fuel blake2b_hash_size 0
    viewed (reading I (finish I saw_trailer))
    print (total_lines console chunk_num)
    pure chunk_num

  abbrev pub view_status : Result DeltaError ℕ → ℕ
  view_status (ok chunk_num) = 0
  view_status (err e) = elim e.code [ io_error ↦ 2 | _ ↦ 1 ]

  -- `view_delta` of a file by its name, if it opened: the exit status, and what is printed.
  unfoldable pub view_delta : Bytes → Option I.State → ℕ × Bytes
  view_delta name none = (2, [])
  view_delta name (some s) =
      let (r, v) = view_stream (record { delta = s; printed = banner name }) in
      (view_status r, v.printed)
