-- ===== src/Diff/Segment.antt =====
-- A stretch of a diff: the opcodes that take the applier from one place of the old and the new data
-- to a later one.
use roll.Prelude.{
  ℕ, ◌+◌, ◌%◌, ◌≤◌, ◌<◌, ◌≡◌, refl, sym, ap, ◌∙◌, subst, inl, inr, List, [], ◌∷◌, ◌++◌, length,
  append_assoc, append-nil, arith,
}
use roll.Format.{u32_mod}
use roll.Io.{Bytes}
use roll.Codec.Ints.{u32_be, push_u32_be, push_u32_be_lem}
use roll.Codec.Reader.{DiffOpcode}
use roll.Diff.Rebuild.{
  Rebuild, replace, insert, delete, Rebuild-skip, replace_op, insert_op, delete_op,
}
use roll.Diff.Wire.{
  Encodes, inline, deletion, EncodesAll, end, more, EncodesAll-append, inline_bytes, delete_bytes,
}

-- A place: what is left of the old data, the new position, what is left of the new data.
pub record Place : Type 0 where
  pub olds : Bytes
  pub pos : ℕ
  pub news : Bytes

abbrev pub place : Bytes → ℕ → Bytes → Place
place olds pos news = record { olds = olds; pos = pos; news = news }

abbrev pub RebuildAt : List DiffOpcode → Place → Type 0
RebuildAt ops p = Rebuild ops p.olds p.pos p.news

-- `result` is `diff` and the bytes of opcodes that lead from `p` to `q`.
pub record Segment (result diff : Bytes) (p q : Place) : Type 0 where
  pub ops : List DiffOpcode
  pub bytes : Bytes
  pub appended : result ≡ diff ++ bytes
  pub encoded : EncodesAll ops bytes
  pub leads : (rest : List DiffOpcode) → RebuildAt rest q → RebuildAt (ops ++ rest) p

pub Segment-refl : (diff : Bytes) (p : Place) → Segment diff diff p p
Segment-refl diff p = record {
  ops = [];
  bytes = [];
  appended = sym (append-nil diff);
  encoded = end;
  leads = λ rest r. r;
}

pub Segment-trans :
    {a b c : Bytes} {p q r : Place} → Segment b a p q → Segment c b q r → Segment c a p r
Segment-trans {a} {p = p} {q = q} s t = record {
  ops = s.ops ++ t.ops;
  bytes = s.bytes ++ t.bytes;
  appended = t.appended ∙ rw (s.appended, append_assoc a s.bytes t.bytes);
  encoded = EncodesAll-append s.encoded t.encoded;
  leads = λ rest r. rw (append_assoc s.ops t.ops rest) (s.leads (t.ops ++ rest) (t.leads rest r));
}

-- Equal bytes need no opcode.
skip_leads :
    (same olds news : Bytes) (pos k : ℕ) (rest : List DiffOpcode)
    → k ≡ pos + length same
    → Rebuild rest olds k news
    → Rebuild rest (same ++ olds) pos (same ++ news)
skip_leads [] olds news pos k rest e r = subst (λ n. Rebuild rest olds n news) (omega arith) r
skip_leads (x ∷ same) olds news pos k rest e r =
    Rebuild-skip x refl (skip_leads same olds news (pos + 1) k rest (omega arith) r)

pub skip-Segment :
    (diff same olds news : Bytes) (pos : ℕ)
    → Segment diff diff
        (place (same ++ olds) pos (same ++ news))
        (place olds (pos + length same) news)
skip-Segment diff same olds news pos = record {
  ops = [];
  bytes = [];
  appended = sym (append-nil diff);
  encoded = end;
  leads = λ rest r. skip_leads same olds news pos (pos + length same) rest refl r;
}

encoded_one : {o : DiffOpcode} {bytes : Bytes} → Encodes o bytes → EncodesAll (o ∷ []) bytes
encoded_one {bytes = bytes} e = more bytes e (sym (append-nil bytes)) end

module _ (diff payload olds news : Bytes) (pos : ℕ) (small : length payload ≤ 255)
    (near : pos < u32_mod) where
  pub replace-Segment :
      (gone : Bytes)
      → length gone ≡ length payload
      → Segment
          (diff ++ inline_bytes b'D' pos payload)
          diff
          (place (gone ++ olds) pos (payload ++ news))
          (place olds (pos + length payload) news)
  replace-Segment gone h = record {
    ops = replace_op pos payload ∷ [];
    bytes = inline_bytes b'D' pos payload;
    appended = refl;
    encoded = encoded_one (inline b'D' pos payload (inl refl) near small refl refl);
    leads = λ rest r.
        replace [] gone payload (ap (λ n. replace_op n payload) (omega arith)) refl refl h
          (omega arith) r;
  }

  pub insert-Segment :
      Segment
        (diff ++ inline_bytes b'I' pos payload)
        diff
        (place olds pos (payload ++ news))
        (place olds (pos + length payload) news)
  insert-Segment = record {
    ops = insert_op pos payload ∷ [];
    bytes = inline_bytes b'I' pos payload;
    appended = refl;
    encoded = encoded_one (inline b'I' pos payload (inr refl) near small refl refl);
    leads = λ rest r.
        insert [] payload (ap (λ n. insert_op n payload) (omega arith)) refl refl (omega arith) r;
  }

pub delete-Segment :
    (diff gone olds news : Bytes) (pos : ℕ)
    → length gone < u32_mod
    → pos < u32_mod
    → Segment
        (diff ++ delete_bytes pos (length gone))
        diff
        (place (gone ++ olds) pos news)
        (place olds pos news)
delete-Segment diff gone olds news pos small near = record {
  ops = delete_op pos (length gone) ∷ [];
  bytes = delete_bytes pos (length gone);
  appended = refl;
  encoded = encoded_one (deletion pos (length gone) near small refl refl);
  leads = λ rest r.
      delete [] gone (ap (λ n. delete_op n (length gone)) (omega arith)) refl refl (omega arith) r;
}

-- The bytes that the emitters push, in the layout of the format.
pub push_inline :
    (diff payload : Bytes) (op pos : ℕ)
    → length payload ≤ 255
    → pos < u32_mod
    → (push_u32_be (diff ++ op ∷ []) (pos % u32_mod) ++ length payload % 256 ∷ []) ++ payload
      ≡ diff ++ inline_bytes op pos payload
push_inline diff payload op pos small near =
    rw (whole, count, push_u32_be_lem (diff ++ op ∷ []) pos near) (simp append_assoc)
  where
    whole : pos % u32_mod ≡ pos
    whole = omega arith

    count : length payload % 256 ≡ length payload
    count = omega arith

pub push_delete :
    (diff : Bytes) (pos n : ℕ)
    → pos < u32_mod
    → n < u32_mod
    → push_u32_be (push_u32_be (diff ++ b'X' ∷ []) (pos % u32_mod)) (n % u32_mod)
      ≡ diff ++ delete_bytes pos n
push_delete diff pos n near small =
    rw
      (
        whole,
        count,
        push_u32_be_lem (diff ++ b'X' ∷ []) pos near,
        push_u32_be_lem ((diff ++ b'X' ∷ []) ++ u32_be pos) n small,
      )
      (simp append_assoc)
  where
    whole : pos % u32_mod ≡ pos
    whole = omega arith

    count : n % u32_mod ≡ n
    count = omega arith
